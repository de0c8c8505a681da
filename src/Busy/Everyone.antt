-- ===== src/Busy/Everyone.antt =====
-- The handling of one message while pods report and connect.
use grav.Common.{
  ℕ, ◌+◌, ◌<◌, ◌≡◌, refl, sym, ap, subst, arith, List, [], ◌∷◌, Option, some, inl, inr, ◌⊎◌, All,
  length, append-nil,
}
use grav.Message.{Message}
use grav.MsgBuffer.Range.{InRange, push_total, iter_total}
use grav.Pool.{ConnectionPool}
use grav.Pool.Ring.{Member, Represents}
use grav.Bus.{MessageBus}
use grav.Bus.Members.{In, HasId, All-of_In}
use grav.Instance.Ring.{IsClean, All-In}
use grav.Busy.{Arrival, handle_busy, all_joins}
use grav.Busy.Story.{Told, Removed, Track, begun}
use grav.Busy.Admit.{At}
use grav.Busy.Loops.{AllSafeFor, traverse_busy_lem, prepare_busy_lem}

-- At the beginning every member is as it was.
begin :
    (msgs : List (Option Message)) (msg : Message) (hub : ℕ) (old : List Member)
    → ((m : Member) → In m old → m.id ≡ hub → IsClean m.body)
    → (ms : List Member) → ((m : Member) → In m ms → In m old)
    → All (Told msgs msg hub old 0) ms
begin msgs msg hub old clean ms sub = All-of_In (Told msgs msg hub old 0) ms (λ m k. record {
  origin = m;
  from = inl (sub m k);
  same = refl;
  story = begun;
  clean = clean m (sub m k);
})

HasId-In : (m : Member) (ms : List Member) → In m ms → HasId m.id ms
HasId-In m [] k = absurd k
HasId-In m (x ∷ ms) (inl e) = inl (ap (λ (y : Member). y.id) e)
HasId-In m (x ∷ ms) (inr k) = inr (HasId-In m ms k)

-- The ring `old` has a connection of the hub, and it is clean.
pub record HubIn (hub : ℕ) (old : List Member) : Type 0 where
  pub inside : HasId hub old
  pub clean : (m : Member) → In m old → m.id ≡ hub → IsClean m.body

-- The state before the first arrival.
pub begin_at :
    (msgs : List (Option Message)) (msg : Message) (hub : ℕ) (p : ConnectionPool) (cur : Member)
    (rest : List Member)
    → Represents p (cur ∷ rest)
    → HubIn hub (cur ∷ rest)
    → At msgs msg hub (cur ∷ rest) p cur.id cur rest []
begin_at msgs msg hub p cur rest r h =
    let old = cur ∷ rest in
    let all_told = begin msgs msg hub old h.clean old (λ m k. k) in
    let track : Track msgs msg hub old old = record {
      hub_inside = h.inside;
      kept =
          All-of_In (λ b. HasId b.id old ⊎ Removed msgs msg hub old b.id) old
            (λ b k. inl (HasId-In b old k));
    } in
    record {
      represents = subst (λ ms. Represents p (cur ∷ ms)) (sym (append-nil rest)) r;
      start = refl;
      current = all_told.0;
      waiting = all_told.1;
      done = tt;
      track = subst (λ ms. Track msgs msg hub old (cur ∷ ms)) (sym (append-nil rest)) track;
    }

-- What is known of the members tells of the hub's.
pub Told-HubIn :
    (msgs : List (Option Message)) (msg : Message) (hub : ℕ) (old : List Member) (n : ℕ)
    (ring : List Member)
    → All (Told msgs msg hub old n) ring
    → HasId hub ring
    → HubIn hub ring
Told-HubIn msgs msg hub old n ring t h = record {
  inside = h;
  clean = λ m k e. (All-In (Told msgs msg hub old n) ring m t k).clean e;
}

-- What the handling of `msg` leaves where others run meanwhile.
pub record HandledBusy (hub : ℕ) (old : List Member) (msg : Message) (bus' : MessageBus)
    (ring : List Member) : Type 0 where
  pub replay : List (Option Message)
  pub represents : Represents bus'.pool ring
  pub buffered : InRange bus'.buffer
  pub everyone : All (Told replay msg hub old 1) ring
  pub kept : All (λ m. HasId m.id ring ⊎ Removed replay msg hub old m.id) old
  pub hub_in : HubIn hub ring

-- While the bus handles a message, pods report feedback and new pods connect before each round of
-- its two loops. Where the ring has the connection of the hub, which has never failed or asked for
-- anything, and the hub reports only successes meanwhile, the indices of the buffer are in range,
-- and the schedules have more rounds than the ring has other members and pods connect: nothing
-- panics and both loops end; every member of the ring that is left was in the old ring or has
-- connected since, and was sent the message exactly once; every old member is still there unless a
-- status check sent it away; and the same holds of the hub and the buffer again.
pub handle_busy_everyone :
    (bus : MessageBus) (msg : Message) (hub : ℕ) (cur : Member) (rest : List Member)
    (before during : List (List Arrival))
    → Represents bus.pool (cur ∷ rest)
    → InRange bus.buffer
    → HubIn hub (cur ∷ rest)
    → AllSafeFor hub before
    → AllSafeFor hub during
    → length rest + all_joins before < length before
    → length rest + all_joins before + all_joins during < length during
    → (bus' : MessageBus) × (ring : List Member) × (handle_busy before during bus msg ≡ some bus')
      × HandledBusy hub (cur ∷ rest) msg bus' ring
unfolding handle_busy
handle_busy_everyone bus msg hub cur rest before during r v h safe safe' l l' =
    let old = cur ∷ rest in
    let (msgs, e) = iter_total bus.buffer v in
    let (p₁, q, s, todo, e₁, e₂, few, t) =
      prepare_busy_lem bus.buffer msgs e msg hub old before bus.pool cur rest safe l
        (begin_at msgs msg hub bus.pool cur rest r h) in
    let (p₂, ring, e₃, o) =
      traverse_busy_lem bus.buffer msgs e msg hub old during q s.id s todo [] safe'
        (omega (arith, few)) t in
    let (buffer, e₄, v') = push_total bus.buffer msg v in
    (
      record { pool = p₂; buffer = buffer },
      ring,
      ground (arith, e₁, e₂, t.represents.ring.0, e₃, e₄),
      record {
        replay = msgs;
        represents = o.represents;
        buffered = v';
        everyone = o.everyone;
        kept = o.track.kept;
        hub_in = Told-HubIn msgs msg hub old 1 ring o.everyone o.track.hub_inside;
      },
    )
