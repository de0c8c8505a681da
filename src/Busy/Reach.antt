-- ===== src/Busy/Reach.antt =====
-- Every bus that a running instance comes to, whatever order its pods report and connect in.
use grav.Common.{
  ℕ, zero, suc, ◌+◌, ◌<◌, ◌≡◌, refl, ap, ◌∙◌, subst, arith, List, [], ◌∷◌, ◌++◌, some, inl, inr,
  All, All-append, length, length-append,
}
use grav.Message.{Message}
use grav.MsgBuffer.{default_buffer_size, new_msg_buffer}
use grav.MsgBuffer.Range.{InRange}
use grav.PodConnection.{Feedback}
use grav.Pool.{ConnectionPool, new_connection_pool}
use grav.Pool.Ring.{Member, Represents}
use grav.Pool.Refines.{new_connection_pool-Represents, insert_empty_refines, fresh_member}
use grav.Bus.{MessageBus, new_message_bus, add_pod}
use grav.Instance.Ring.{IsSuccess, IsClean}
use grav.Instance.Total.{new_buffer-InRange}
use grav.Busy.{Arrival, admit_all, handle_busy, joins, all_joins}
use grav.Busy.Admit.{SafeFor, restart, admit_all_lem}
use grav.Busy.Story.{Told}
use grav.Busy.Loops.{AllSafeFor}
use grav.Busy.Everyone.{HubIn, HandledBusy, begin_at, Told-HubIn, handle_busy_everyone}
use grav.Busy.Schedule.{quiet, handle_busy-append, all_joins-quiet, length-quiet}

-- The hub's pod connects first, before anything runs, and reports nothing but successes. Then pods
-- report and connect and messages are handled.
pub data Reachable : MessageBus → Type 0 where
  first :
      {bus : MessageBus} (fs : List Feedback)
      → All IsSuccess fs
      → add_pod new_message_bus fs ≡ some bus
      → Reachable bus
  arrived :
      {bus : MessageBus} {pool : ConnectionPool} (xs : List Arrival)
      → Reachable bus
      → All (SafeFor 1) xs
      → admit_all xs bus.pool ≡ some pool
      → Reachable (record bus { pool = pool })
  handled :
      {bus bus' : MessageBus} (msg : Message) (before during : List (List Arrival))
      → Reachable bus
      → AllSafeFor 1 before
      → AllSafeFor 1 during
      → handle_busy before during bus msg ≡ some bus'
      → Reachable bus'

-- The bus is fit for the next message.
pub record IsServing (bus : MessageBus) : Type 0 where
  pub cur : Member
  pub rest : List Member
  pub represents : Represents bus.pool (cur ∷ rest)
  pub buffered : InRange bus.buffer
  pub hub_in : HubIn 1 (cur ∷ rest)

IsServing-ring :
    (bus : MessageBus) (ring : List Member)
    → Represents bus.pool ring
    → InRange bus.buffer
    → HubIn 1 ring
    → IsServing bus
IsServing-ring bus [] r v h = absurd h.inside
IsServing-ring bus (m ∷ ms) r v h = record {
  cur = m;
  rest = ms;
  represents = r;
  buffered = v;
  hub_in = h;
}

first-IsServing :
    (fs : List Feedback) (bus : MessageBus)
    → All IsSuccess fs
    → add_pod new_message_bus fs ≡ some bus
    → IsServing bus
unfolding add_pod new_message_bus new_connection_pool
first-IsServing fs bus h e =
    let (p, i, r) = insert_empty_refines fs new_connection_pool-Represents in
    let same : record { pool = p; buffer = new_msg_buffer default_buffer_size } ≡ bus =
      ground (arith, i, e) in
    subst IsServing same (
      IsServing-ring (record { pool = p; buffer = new_msg_buffer default_buffer_size })
        (fresh_member 1 fs ∷ []) r new_buffer-InRange
        (record {
          inside = inl refl;
          clean = λ m k q. elim k [
            | inl z ↦
                subst (λ (x : Member). IsClean x.body) z
                  (record { nothing_failed = refl; successes = h })
            | inr z ↦ absurd z
          ];
        }))

arrived-IsServing :
    (msg : Message) (xs : List Arrival) (bus : MessageBus) (pool : ConnectionPool)
    → All (SafeFor 1) xs
    → admit_all xs bus.pool ≡ some pool
    → IsServing bus
    → IsServing (record bus { pool = pool })
arrived-IsServing msg xs bus pool safe e v =
    let old = v.cur ∷ v.rest in
    let (p, e', n) =
      admit_all_lem [] msg 1 old xs bus.pool v.cur.id v.cur v.rest [] safe
        (begin_at [] msg 1 bus.pool v.cur v.rest v.represents v.hub_in) in
    let t = restart [] msg 1 old (length v.rest + joins xs) n in
    let same : p ≡ pool = ground (arith, e, e') in
    subst (λ q. IsServing (record bus { pool = q })) same
      (IsServing-ring (record bus { pool = p }) (n.conn ∷ (n.todo ++ [])) t.represents v.buffered
        (Told-HubIn [] msg 1 old 0 (n.conn ∷ (n.todo ++ []))
          (t.current, All-append (Told [] msg 1 old 0) n.todo [] t.waiting tt) t.track.hub_inside))

AllSafeFor-quiet :
    (hub : ℕ) (xss : List (List Arrival)) (n : ℕ)
    → AllSafeFor hub xss
    → AllSafeFor hub (xss ++ quiet n)
AllSafeFor-quiet hub [] zero h = tt
AllSafeFor-quiet hub [] (suc n) h = (tt, AllSafeFor-quiet hub [] n tt)
AllSafeFor-quiet hub (xs ∷ xss) n h = (h.0, AllSafeFor-quiet hub xss n h.1)

-- The schedules with enough quiet rounds at their ends.
handled_all :
    (msg : Message) (before during : List (List Arrival)) (bus : MessageBus) (v : IsServing bus)
    → AllSafeFor 1 before
    → AllSafeFor 1 during
    → (n : ℕ) → length v.rest + all_joins before + all_joins during < n
    → (bus' : MessageBus) × (ring : List Member) × (handle_busy
          (before ++ quiet n)
          (during ++ quiet n)
          bus
          msg
        ≡ some bus')
      × HandledBusy 1 (v.cur ∷ v.rest) msg bus' ring
handled_all msg before during bus v safe safe' n l =
    let e = all_joins-quiet before n in
    let e' = all_joins-quiet during n in
    let k : length (before ++ quiet n) ≡ length before + n =
      length-append before (quiet n) ∙ ap (λ m. length before + m) (length-quiet n) in
    let k' : length (during ++ quiet n) ≡ length during + n =
      length-append during (quiet n) ∙ ap (λ m. length during + m) (length-quiet n) in
    handle_busy_everyone bus msg 1 v.cur v.rest (before ++ quiet n) (during ++ quiet n) v.represents
      v.buffered v.hub_in (AllSafeFor-quiet 1 before n safe) (AllSafeFor-quiet 1 during n safe')
      (omega arith) (omega arith)

handled-IsServing :
    (msg : Message) (before during : List (List Arrival)) (bus bus' : MessageBus)
    → AllSafeFor 1 before
    → AllSafeFor 1 during
    → handle_busy before during bus msg ≡ some bus'
    → IsServing bus
    → IsServing bus'
handled-IsServing msg before during bus bus' safe safe' e v =
    let n = suc (length v.rest + all_joins before + all_joins during) in
    let (b, ring, f, h) = handled_all msg before during bus v safe safe' n (omega arith) in
    let same : b ≡ bus' =
      ground (arith, f, handle_busy-append before during (quiet n) (quiet n) bus bus' msg e) in
    subst IsServing same (IsServing-ring b ring h.represents h.buffered h.hub_in)

Reachable-IsServing : (msg : Message) {bus : MessageBus} → Reachable bus → IsServing bus
Reachable-IsServing msg (first {bus} fs h e) = first-IsServing fs bus h e
Reachable-IsServing msg (arrived {bus} {pool} xs r h e) =
    arrived-IsServing msg xs bus pool h e (Reachable-IsServing msg r)
Reachable-IsServing msg (handled {bus} {bus'} m before during r h h' e) =
    handled-IsServing m before during bus bus' h h' e (Reachable-IsServing msg r)

-- For every bus that is reached from a new one, where the hub connects first and reports only
-- successes, by pods that report and connect and by messages that are handled meanwhile: whatever
-- arrives in the first rounds of the handling of a message, once nothing more arrives the handling
-- returns after finitely many rounds, with every member sent the message exactly once and none lost
-- but those that a status check sent away, and the bus that it leaves is again one that is reached.
pub handle_busy-Reachable :
    {bus : MessageBus} (msg : Message) (before during : List (List Arrival))
    → Reachable bus
    → AllSafeFor 1 before
    → AllSafeFor 1 during
    → (old : List Member) × Represents bus.pool old
      × (n : ℕ) × (bus' : MessageBus) × (ring : List Member) × (handle_busy
            (before ++ quiet n)
            (during ++ quiet n)
            bus
            msg
          ≡ some bus')
      × HandledBusy 1 old msg bus' ring
      × Reachable bus'
handle_busy-Reachable {bus} msg before during r safe safe' =
    let v = Reachable-IsServing msg r in
    let n = suc (length v.rest + all_joins before + all_joins during) in
    let (bus', ring, e, h) = handled_all msg before during bus v safe safe' n (omega arith) in
    (
      v.cur ∷ v.rest,
      v.represents,
      n,
      bus',
      ring,
      e,
      h,
      handled msg (before ++ quiet n) (during ++ quiet n) r (AllSafeFor-quiet 1 before n safe)
          (AllSafeFor-quiet 1 during n safe') e,
    )
