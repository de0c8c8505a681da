-- ===== src/Bus/Race.antt =====
-- A round of `traverse` in which a pod connects after `peek` and is gone again at once.
use grav.Common.{ℕ, ◌+◌, ◌≡◌, ◌≢◌, arith, List, [], ◌∷◌, ◌++◌, Option, some, ◌>>=◌}
use grav.Message.{Message}
use grav.MsgBuffer.{MsgBuffer, iter}
use grav.PodConnection.{Ptr, Feedback}
use grav.Pool.{ConnectionPool, PrepareError, insert, peek, next, prepare_next}
use grav.Pool.Ring.{Member, head_or, Represents, rotate-Represents}
use grav.Pool.Refines.{peek_lem, next_lem, fresh_member, insert_refines}
use grav.Pool.Prepare.{goes, fate, status, prepare_next_goes}
use grav.Bus.{send_to, moved_start}
use grav.Bus.Lap.{got}
use grav.Bus.Traverse.{send_to_refines, head_ne}

-- The round of `traverse`, with the pod that connects between `peek` and `prepareNext`.
unfoldable pub traverse_round_racing :
    List Feedback
    → MsgBuffer
    → Message
    → ℕ
    → Ptr
    → ConnectionPool
    → Option (ℕ × Ptr × ℕ × ConnectionPool)
unfolding send_to moved_start insert
traverse_round_racing feedback buffer msg start_id conn pool = do
  sent ← send_to conn msg pool
  nxt ← peek sent
  joined ← insert sent feedback
  (err, ready) ← prepare_next joined buffer
  start_id' ← moved_start err start_id nxt ready
  (arrived, ahead) ← next ready
  a ← arrived
  c ← ahead.heap a
  some (start_id', a, c.id, ahead)

-- In the last round of a lap, where the connection behind the current one is the start, and after
-- the peek a pod connects whose feedback sends it away at its status check: the round makes the
-- start the next connection without ending the lap, since startID has moved on to another
-- connection, so the start, which is still in the ring, is sent the message again.
pub start_twice :
    {p : ConnectionPool} (buffer : MsgBuffer) (msgs : List (Option Message)) (msg : Message)
    (feedback : List Feedback) (conn start : Member) (seen : List Member) (g : PrepareError)
    → iter buffer ≡ some msgs
    → Represents p (conn ∷ start ∷ seen)
    → fate (status (fresh_member (p.max_id + 1) feedback).body) ≡ goes g
    → (s' : ℕ) × (ahead : ConnectionPool) × (traverse_round_racing feedback buffer msg start.id
          conn.id p
        ≡ some (s', start.id, start.id, ahead))
      × (s' ≢ start.id)
      × Represents ahead (start ∷ (seen ++ (got msg conn ∷ [])))
unfolding traverse_round_racing moved_start
start_twice {p} buffer msgs msg feedback conn start seen g i r h =
    let (p₁, e₁, r₁) = send_to_refines msg conn (start ∷ seen) r in
    let (p₂, e₂, r₂) = insert_refines feedback (got msg conn) (start ∷ seen) r₁ in
    let new = fresh_member (p₁.max_id + 1) feedback in
    let (p₃, e₃, r₃, d₃) =
      prepare_next_goes buffer msgs i (got msg conn) new (start ∷ seen) g r₂ h in
    let e₄ = next_lem (got msg conn) (start ∷ seen) r₃ in
    let r₄ = rotate-Represents (got msg conn) (start ∷ seen) r₃ in
    (
      head_or seen conn.id,
      record p₃ { current = some start.id },
      ground (arith, e₁, peek_lem (got msg conn) (start ∷ seen) r₁, e₂, e₃, e₄, r₃.ring.1.0),
      head_ne start conn seen r.distinct.0.0 r.distinct.1.0,
      r₄,
    )
