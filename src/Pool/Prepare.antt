-- ===== src/Pool/Prepare.antt =====
-- `prepareNext` against the list of members.
use grav.Common.{
  ◌≡◌, refl, sym, ap, ◌∙◌, Bool, true, false, if◌then◌else◌, List, [], ◌∷◌, ◌++◌, map, Option, none,
  some, arith, append-nil, append_assoc, inl, inr, ◌⊎◌,
}
use grav.Message.{Message}
use grav.MsgBuffer.{MsgBuffer, iter}
use grav.PodConnection.{
  Ptr, PodConnection, ConnStatus, StatusError, failed_message, failed_message_max, send, send_all,
  flush_failed,
}
use grav.PodConnection.Status.{status_of, failures, check_status_lem}
use grav.Pool.{
  ConnectionPool, PrepareError, removing, disconnecting, store, peek, delete_next, replay_next,
  flush_if, handle_status, check_next, prepare_next,
}
use grav.Pool.Ring.{Body, Member, conn_at, head_or, Represents, store_first, store_second}
use grav.Pool.Refines.{peek_lem, delete_next_refines, delete_next_single, dead_at}

pub send_all_lem :
    (c : PodConnection) (msgs : List (Option Message))
    → send_all c msgs ≡ record c { sends = c.sends ++ msgs }
unfolding send_all send
send_all_lem c [] = ap (λ s. record c { sends = s }) (sym (append-nil c.sends))
send_all_lem c (msg ∷ msgs) =
    send_all_lem (record c { sends = c.sends ++ (msg ∷ []) }) msgs
    ∙ ap (λ s. record c { sends = s }) (append_assoc c.sends (msg ∷ []) msgs)

pub flush_failed_lem :
    (c : PodConnection)
    → flush_failed c ≡ record c { sends = c.sends ++ map some c.failed; failed = [] }
unfolding flush_failed
flush_failed_lem c =
    ap {A = PodConnection} (λ d. record d { failed = [] }) (send_all_lem c (map some c.failed))

-- What a status asks of the bus.
pub data Fate : Type 0 where
  stays : Fate
  goes : PrepareError → Fate

abbrev pub fate : ConnStatus → Fate
fate s = elim s.error [
  | some failed_message_max ↦ goes removing
  | some failed_message ↦ stays
  | none ↦ if s.wants_disconnect then goes disconnecting else stays
]

pub Fate-cases : (f : Fate) → (f ≡ stays) ⊎ ((g : PrepareError) × (f ≡ goes g))
Fate-cases stays = inl refl
Fate-cases (goes g) = inr (g, refl)

-- A member whose channel has been drained, and one that has been prepared besides.
abbrev pub drained : Body → Body
drained x = record x { feedback_chan = []; failed = x.failed ++ failures x.feedback_chan }

abbrev pub replayed : ConnStatus → List (Option Message) → Body → Body
replayed s msgs x = elim s.error [
  | none ↦ if s.wants_replay then record x { sends = x.sends ++ msgs } else x
  | some e ↦ x
]

abbrev pub flushed : ConnStatus → Body → Body
flushed s x =
    if s.had_success then record x { sends = x.sends ++ map some x.failed; failed = [] } else x

abbrev pub status : Body → ConnStatus
status x = status_of x.feedback_chan x.failed

-- The member after a `prepareNext` that keeps it, where the buffer gives `msgs`.
abbrev pub prepared : List (Option Message) → Body → Body
prepared msgs x = flushed (status x) (replayed (status x) msgs (drained x))

abbrev pub member : Ptr → Body → Member
member a x = record { id = a; body = x }

-- A place `a` of the ring, linked to `e`, that the bus looks at next: `f x` is the ring with the
-- body `x` there.
record Slot (f : Body → List Member) (a e : Ptr) : Type 0 where
  write :
      (p : ConnectionPool) (x y : Body)
      → Represents p (f x)
      → Represents (store p a (conn_at (member a y) e)) (f y)
  read :
      (p : ConnectionPool) (x : Body)
      → Represents p (f x)
      → p.heap a ≡ some (conn_at (member a x) e)
  look : (p : ConnectionPool) (x : Body) → Represents p (f x) → peek p ≡ some (some a)

module _ {f : Body → List Member} {a e : Ptr} (s : Slot f a e) where
  flush_if_lem :
      (h : Bool) (p : ConnectionPool) (x : Body)
      → Represents p (f x)
      → (p' : ConnectionPool) × (flush_if h a p ≡ some p')
        × Represents p'
            (f (if h then record x { sends = x.sends ++ map some x.failed; failed = [] } else x))
  unfolding flush_if
  flush_if_lem false p x r = (p, refl, r)
  flush_if_lem true p x r =
      let y : Body = record x { sends = x.sends ++ map some x.failed; failed = [] } in
      (
        store p a (conn_at (member a y) e),
        ground (arith, s.read p x r, flush_failed_lem (conn_at (member a x) e)),
        s.write p x y r,
      )

  replay_next_lem :
      (buffer : MsgBuffer) (msgs : List (Option Message)) (p : ConnectionPool) (x : Body)
      → iter buffer ≡ some msgs
      → Represents p (f x)
      → (p' : ConnectionPool) × (replay_next p buffer ≡ some p')
        × Represents p' (f (record x { sends = x.sends ++ msgs }))
  unfolding replay_next
  replay_next_lem buffer msgs p x i r =
      let y : Body = record x { sends = x.sends ++ msgs } in
      (
        store p a (conn_at (member a y) e),
        ground (arith, i, s.look p x r, s.read p x r, send_all_lem (conn_at (member a x) e) msgs),
        s.write p x y r,
      )

  prepare_next_lem :
      (buffer : MsgBuffer) (p : ConnectionPool) (x : Body)
      → Represents p (f x)
      → prepare_next p buffer
        ≡ handle_status (status x) a (store p a (conn_at (member a (drained x)) e)) buffer
  unfolding prepare_next check_next
  prepare_next_lem buffer p x r =
      ground (arith, s.look p x r, s.read p x r, check_status_lem (conn_at (member a x) e))

  module _ (buffer : MsgBuffer) (msgs : List (Option Message)) (i : iter buffer ≡ some msgs) where
    stays_by_cases :
        (had dis rep : Bool) (er : Option StatusError) (p : ConnectionPool) (x : Body)
        → Represents p (f x)
        → let st : ConnStatus = record {
          had_success = had;
          wants_replay = rep;
          wants_disconnect = dis;
          error = er;
        } in
          fate st ≡ stays
          → (p' : ConnectionPool) × (handle_status st a p buffer ≡ some (none, p'))
            × Represents p' (f (flushed st (replayed st msgs x)))
    unfolding handle_status
    stays_by_cases had dis rep (some failed_message_max) p x r h = cc
    stays_by_cases had dis rep (some failed_message) p x r h =
        let (p', e', r') = flush_if_lem had p x r in (p', ground (arith, e'), r')
    stays_by_cases had true rep none p x r h = cc
    stays_by_cases had false true none p x r h =
        let (p', e', r') = replay_next_lem buffer msgs p x i r in
        let (p'', e'', r'') = flush_if_lem had p' (record x { sends = x.sends ++ msgs }) r' in
        (p'', ground (arith, e', e''), r'')
    stays_by_cases had false false none p x r h =
        let (p', e', r') = flush_if_lem had p x r in (p', ground (arith, e'), r')

    -- A connection that is to stay is drained, then given the replay and its failed messages.
    prepare_stays :
        (p : ConnectionPool) (x : Body)
        → Represents p (f x)
        → fate (status x) ≡ stays
        → (p' : ConnectionPool) × (prepare_next p buffer ≡ some (none, p'))
          × Represents p' (f (prepared msgs x))
    prepare_stays p x r h =
        let st = status x in
        let (p', e', r') =
          stays_by_cases st.had_success st.wants_disconnect st.wants_replay st.error
            (store p a (conn_at (member a (drained x)) e)) (drained x) (s.write p x (drained x) r)
            h in
        (p', prepare_next_lem buffer p x r ∙ e', r')

  handle_goes :
      (st : ConnStatus) (g : PrepareError) (buffer : MsgBuffer) (p p' : ConnectionPool)
      → fate st ≡ goes g
      → delete_next p ≡ some p'
      → handle_status st a p buffer ≡ some (some g, p')
  unfolding handle_status
  handle_goes st g buffer p p' h d = ground arith

second-Slot :
    (m b : Member) (ms : List Member) → Slot (λ x. m ∷ member b.id x ∷ ms) b.id (head_or ms m.id)
second-Slot m b ms = record {
  write = λ p x y r. store_second m (member b.id x) y ms r;
  read = λ p x r. r.ring.1.0;
  look = λ p x r. peek_lem m (member b.id x ∷ ms) r;
}

single-Slot : (m : Member) → Slot (λ x. member m.id x ∷ []) m.id m.id
single-Slot m = record {
  write = λ p x y r. store_first (member m.id x) y [] r;
  read = λ p x r. r.ring.0;
  look = λ p x r. peek_lem (member m.id x) [] r;
}

module _ (buffer : MsgBuffer) (msgs : List (Option Message)) (i : iter buffer ≡ some msgs) where
  -- On a ring of two or more, where the buffer replays `msgs` and the status of the second
  -- connection lets it stay, prepareNext returns no error and leaves the ring with the second
  -- connection drained, given the replay if it asked for one and no message failed, and with its
  -- failed messages sent again if a message succeeded; no other connection changes.
  pub prepare_next_stays :
      {p : ConnectionPool} (m b : Member) (ms : List Member)
      → Represents p (m ∷ b ∷ ms)
      → fate (status b.body) ≡ stays
      → (p' : ConnectionPool) × (prepare_next p buffer ≡ some (none, p'))
        × Represents p' (m ∷ member b.id (prepared msgs b.body) ∷ ms)
  prepare_next_stays {p} m b ms r h = prepare_stays (second-Slot m b ms) buffer msgs i p b.body r h

  -- On a ring of two or more, where the status of the second connection sends it away, prepareNext
  -- returns that error, the ring is the old one without that connection, and the connection is left
  -- disconnected with its channel closed and its link still to the connection behind it.
  pub prepare_next_goes :
      {p : ConnectionPool} (m b : Member) (ms : List Member) (g : PrepareError)
      → Represents p (m ∷ b ∷ ms)
      → fate (status b.body) ≡ goes g
      → (p' : ConnectionPool) × (prepare_next p buffer ≡ some (some g, p'))
        × Represents p' (m ∷ ms)
        × (p'.heap b.id ≡ some (dead_at (member b.id (drained b.body)) (head_or ms m.id)))
  prepare_next_goes {p} m b ms g r h =
      let s = second-Slot m b ms in
      let (p', e', r', d') =
        delete_next_refines m (member b.id (drained b.body)) ms
          (s.write p b.body (drained b.body) r) in
      (
        p',
        prepare_next_lem s buffer p b.body r
            ∙ handle_goes s (status b.body) g buffer
                (store p b.id (conn_at (member b.id (drained b.body)) (head_or ms m.id))) p' h e',
        r',
        d',
      )

  -- And on a ring of one.
  pub prepare_single_stays :
      {p : ConnectionPool} (m : Member)
      → Represents p (m ∷ [])
      → fate (status m.body) ≡ stays
      → (p' : ConnectionPool) × (prepare_next p buffer ≡ some (none, p'))
        × Represents p' (member m.id (prepared msgs m.body) ∷ [])
  prepare_single_stays {p} m r h = prepare_stays (single-Slot m) buffer msgs i p m.body r h

  pub prepare_single_goes :
      {p : ConnectionPool} (m : Member) (g : PrepareError)
      → Represents p (m ∷ [])
      → fate (status m.body) ≡ goes g
      → (p' : ConnectionPool) × (prepare_next p buffer ≡ some (some g, p')) × Represents p' []
  prepare_single_goes {p} m g r h =
      let s = single-Slot m in
      let (p', e', r') =
        delete_next_single (member m.id (drained m.body)) (s.write p m.body (drained m.body) r) in
      (
        p',
        prepare_next_lem s buffer p m.body r
            ∙ handle_goes s (status m.body) g buffer
                (store p m.id (conn_at (member m.id (drained m.body)) m.id)) p' h e',
        r',
      )
