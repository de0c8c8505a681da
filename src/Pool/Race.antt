-- ===== src/Pool/Race.antt =====
-- prepareNext and a pod that connects between the status check and what it makes prepareNext do.
use grav.Common.{◌+◌, ◌≡◌, refl, subst, append-nil, inl, inr, ◌⊎◌, arith, List, ◌∷◌, ◌++◌, some}
use grav.MsgBuffer.{MsgBuffer}
use grav.PodConnection.{Feedback}
use grav.PodConnection.Status.{check_status_lem, failures}
use grav.Pool.{
  ConnectionPool, PrepareError, removing, disconnecting, store, delete_next, check_next,
  handle_status, prepare_next_racing,
}
use grav.Pool.Ring.{Member, conn_at, head_or, Represents, store_second}
use grav.Pool.Refines.{peek_lem, fresh_member, insert_refines, delete_next_refines, dead_at}
use grav.Pool.Prepare.{stays, goes, fate, status, drained, member}

handle_goes :
    (m b : Member) (g : PrepareError) (buffer : MsgBuffer) (p p' : ConnectionPool)
    → fate (status b.body) ≡ goes g
    → delete_next p ≡ some p'
    → handle_status (status b.body) b.id p buffer ≡ some (some g, p')
unfolding handle_status
handle_goes m b g buffer p p' h d = ground arith

check_next_lem :
    {p : ConnectionPool} (m b : Member) (ms : List Member)
    → Represents p (m ∷ b ∷ ms)
    → (p' : ConnectionPool) × (check_next p ≡ some (status b.body, b.id, p'))
      × (p'.max_id ≡ p.max_id)
      × Represents p' (m ∷ member b.id (drained b.body) ∷ ms)
unfolding check_next store
check_next_lem {p} m b ms r =
    let link = head_or ms m.id in
    (
      store p b.id (conn_at (member b.id (drained b.body)) link),
      ground (arith, peek_lem m (b ∷ ms) r, r.ring.1.0, check_status_lem (conn_at b link)),
      refl,
      store_second m b (drained b.body) ms r,
    )

-- A connection that asked to be let go and was not asks no more.
disconnecting-stays :
    (b : Member)
    → fate (status b.body) ≡ goes disconnecting
    → fate (status (drained b.body)) ≡ stays
disconnecting-stays b h = ground (arith, h, append-nil (b.failed ++ failures b.feedback_chan))

forgotten :
    (b : Member) (g : PrepareError)
    → fate (status b.body) ≡ goes g
    → (g ≡ removing) ⊎ (fate (status (drained b.body)) ≡ stays)
forgotten b removing h = inl refl
forgotten b disconnecting h = inr (disconnecting-stays b h)

-- On a ring of two or more where the status of the second connection sends it away, and a pod
-- connects after that status was taken and before the connection is deleted: prepareNext
-- disconnects and closes the connection of the new pod in its place and returns the error, the
-- second connection stays in the ring, and if it was to go for its disconnect request, no status
-- check will send it away for that again.
pub prepare_next_racing_goes :
    {p : ConnectionPool} (buffer : MsgBuffer) (feedback : List Feedback) (m b : Member)
    (ms : List Member) (g : PrepareError)
    → Represents p (m ∷ b ∷ ms)
    → fate (status b.body) ≡ goes g
    → (p' : ConnectionPool) × (prepare_next_racing feedback p buffer ≡ some (some g, p'))
      × Represents p' (m ∷ member b.id (drained b.body) ∷ ms)
      × (p'.heap (p.max_id + 1) ≡ some (dead_at (fresh_member (p.max_id + 1) feedback) b.id))
      × ((g ≡ removing) ⊎ (fate (status (drained b.body)) ≡ stays))
unfolding prepare_next_racing
prepare_next_racing_goes {p} buffer feedback m b ms g r h =
    let b' = member b.id (drained b.body) in
    let (p₁, e₁, q₁, r₁) = check_next_lem m b ms r in
    let (p₂, e₂, r₂) = insert_refines feedback m (b' ∷ ms) r₁ in
    let new = fresh_member (p₁.max_id + 1) feedback in
    let (p₃, e₃, r₃, d₃) = delete_next_refines m new (b' ∷ ms) r₂ in
    (
      p₃,
      ground (arith, e₁, e₂, handle_goes m b g buffer p₂ p₃ h e₃),
      r₃,
      subst (λ n. p₃.heap (n + 1) ≡ some (dead_at (fresh_member (n + 1) feedback) b.id)) q₁ d₃,
      forgotten b g h,
    )
