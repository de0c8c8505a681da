-- ===== src/Bus/Traverse.antt =====
-- Each round of the loop of `traverse`, and the whole lap, against the list of members.
use grav.Common.{
  ℕ, zero, suc, ◌<◌, ◌≡◌, ◌≢◌, refl, sym, subst, inl, inr, All-append_right, append_assoc, ◌∙◌,
  List, [], ◌∷◌, ◌++◌, Option, none, some, arith, ite, if_neg, ℕ_discrete, length,
}
use grav.Message.{Message}
use grav.MsgBuffer.{MsgBuffer, iter}
use grav.PodConnection.{Ptr, PodConnection, send}
use grav.Pool.{ConnectionPool, PrepareError, store, next}
use grav.Pool.Ring.{
  Member, conn_at, head_or, Represents, Absent, head_or-snoc, store_first, rotate-Represents,
}
use grav.Pool.Refines.{peek_lem, next_lem, next_refines}
use grav.Pool.Prepare.{
  stays, goes, fate, Fate-cases, status, prepare_next_stays, prepare_next_goes,
  prepare_single_stays, prepare_single_goes,
}
use grav.Bus.{send_to, moved_start, traverse_round, traverse_loop}
use grav.Bus.Lap.{got, ready, lap}

-- `conn.send(msg)` on the current connection.
pub send_to_refines :
    {p : ConnectionPool} (msg : Message) (m : Member) (ms : List Member)
    → Represents p (m ∷ ms)
    → (p' : ConnectionPool) × (send_to m.id msg p ≡ some p') × Represents p' (got msg m ∷ ms)
unfolding send_to send
send_to_refines {p} msg m ms r = (_, q, store_first m (got msg m).body ms r)
  where
    q : send_to m.id msg p ≡ some (store p m.id (conn_at (got msg m) (head_or ms m.id)))
    q = ground (arith, r.ring.0)

-- The connection that a ring stands at has the ID of its address.
at_head :
    {p : ConnectionPool} (ms : List Member) (m : Member)
    → Represents p (ms ++ (m ∷ []))
    → (c : PodConnection) × (p.heap (head_or ms m.id) ≡ some c) × (c.id ≡ head_or ms m.id)
at_head [] m r = (_, r.ring.0, refl)
at_head (x ∷ ms) m r = (_, r.ring.0, refl)

pub head_ne :
    (b conn : Member) (ms : List Member)
    → b.id ≢ conn.id
    → Absent b.id ms
    → head_or ms conn.id ≢ b.id
head_ne b conn [] n h = λ e. n (sym e)
head_ne b conn (m ∷ ms) n h = h.0

-- The member where the lap started is none of those in front.
pub start_ne :
    (b conn : Member) (todo seen : List Member)
    → b.id ≢ conn.id
    → Absent b.id (todo ++ seen)
    → head_or seen conn.id ≢ b.id
start_ne b conn todo seen n h =
    head_ne b conn seen n (All-append_right (λ m. m.id ≢ b.id) todo seen h)

module _ (buffer : MsgBuffer) (msgs : List (Option Message)) (i : iter buffer ≡ some msgs)
    (msg : Message) where
  -- What a round comes to: the loop is to end or to go on at the head of the ring.
  pub record Round (p : ConnectionPool) (s : ℕ) (conn : Ptr) (s' a : ℕ) (ring : List Member)
      : Type 0 where
    pub ahead : ConnectionPool
    pub represents : Represents ahead ring
    pub step : traverse_round buffer msg s conn p ≡ some (s', a, a, ahead)

  pub Round-stays :
      {p : ConnectionPool} (s : ℕ) (m b : Member) (ms : List Member)
      → Represents p (m ∷ b ∷ ms)
      → fate (status b.body) ≡ stays
      → Round p s m.id s b.id (ready msgs b ∷ (ms ++ (got msg m ∷ [])))
  unfolding traverse_round moved_start
  Round-stays {p} s m b ms r h =
      let (p₁, e₁, r₁) = send_to_refines msg m (b ∷ ms) r in
      let (p₂, e₂, r₂) = prepare_next_stays buffer msgs i (got msg m) b ms r₁ h in
      let (p₃, e₃, r₃) = next_refines (got msg m) (ready msgs b ∷ ms) r₂ in
      record {
        ahead = p₃;
        represents = r₃;
        step = ground (arith, e₁, peek_lem (got msg m) (b ∷ ms) r₁, e₂, e₃, r₃.ring.0);
      }

  pub Round-goes :
      {p : ConnectionPool} (s : ℕ) (m b : Member) (ms : List Member) (g : PrepareError)
      → Represents p (m ∷ b ∷ ms)
      → fate (status b.body) ≡ goes g
      → Round p s m.id
          (ite (ℕ_discrete s b.id) (head_or ms m.id) s)
          (head_or ms m.id)
          (ms ++ (got msg m ∷ []))
  unfolding traverse_round moved_start
  Round-goes {p} s m b ms g r h =
      let (p₁, e₁, r₁) = send_to_refines msg m (b ∷ ms) r in
      let (p₂, e₂, r₂, d₂) = prepare_next_goes buffer msgs i (got msg m) b ms g r₁ h in
      let e₃ = next_lem (got msg m) ms r₂ in
      let r₃ = rotate-Represents (got msg m) ms r₂ in
      let (c, h₃, i₃) = at_head ms (got msg m) r₃ in
      record {
        ahead = record p₂ { current = some (head_or ms m.id) };
        represents = r₃;
        step = ground (arith, e₁, peek_lem (got msg m) (b ∷ ms) r₁, e₂, d₂, e₃, h₃, i₃);
      }

  pub Round-single_stays :
      {p : ConnectionPool} (s : ℕ) (m : Member)
      → Represents p (m ∷ [])
      → fate (status (got msg m).body) ≡ stays
      → Round p s m.id s m.id (ready msgs (got msg m) ∷ [])
  unfolding traverse_round moved_start
  Round-single_stays {p} s m r h =
      let (p₁, e₁, r₁) = send_to_refines msg m [] r in
      let (p₂, e₂, r₂) = prepare_single_stays buffer msgs i (got msg m) r₁ h in
      let (p₃, e₃, r₃) = next_refines (ready msgs (got msg m)) [] r₂ in
      record {
        ahead = p₃;
        represents = r₃;
        step = ground (arith, e₁, peek_lem (got msg m) [] r₁, e₂, e₃, r₃.ring.0);
      }

  -- The ring runs empty, and `next` meets the nil pointer.
  round_single_goes :
      {p : ConnectionPool} (s : ℕ) (m : Member) (g : PrepareError)
      → Represents p (m ∷ [])
      → fate (status (got msg m).body) ≡ goes g
      → traverse_round buffer msg s m.id p ≡ none
  unfolding traverse_round moved_start next
  round_single_goes {p} s m g r h =
      let (p₁, e₁, r₁) = send_to_refines msg m [] r in
      let (p₂, e₂, r₂) = prepare_single_goes buffer msgs i (got msg m) g r₁ h in
      ground (arith, e₁, peek_lem (got msg m) [] r₁, e₂, r₂.current)

  -- The loop ends, with this ring.
  abbrev pub Ends : ConnectionPool → ℕ → ℕ → Ptr → List Member → Type 0
  Ends p fuel s conn ring =
      (p' : ConnectionPool) × (traverse_loop fuel buffer msg s conn p ≡ some p')
      × Represents p' ring

  stop :
      {p : ConnectionPool} (fuel : ℕ) {s conn s' a : ℕ} {ring res : List Member}
      → Round p s conn s' a ring
      → s' ≡ a
      → ring ≡ res
      → Ends p (suc fuel) s conn res
  unfolding traverse_loop
  stop fuel w e z = (w.ahead, ground (arith, w.step), subst (Represents w.ahead) z w.represents)

  go_on :
      {p : ConnectionPool} (fuel : ℕ) {s conn s' a : ℕ} {ring res : List Member}
      (w : Round p s conn s' a ring)
      → s' ≢ a
      → Ends w.ahead fuel s' a res
      → Ends p (suc fuel) s conn res
  unfolding traverse_loop
  go_on fuel w n (p', e, r) = (p', ground (arith, w.step, e), r)

  lap_end :
      {p : ConnectionPool} (conn : Member) (seen res : List Member) (fuel s : ℕ)
      → Represents p (conn ∷ seen)
      → s ≡ head_or seen conn.id
      → lap msgs msg conn [] seen ≡ some res
      → Ends p (suc fuel) s conn.id res
  unfolding lap
  lap_end conn [] res fuel s r q e = elim (Fate-cases (fate (status (got msg conn).body))) [
    | inl h ↦ stop fuel (Round-single_stays s conn r h) q (ground (arith, h, e))
    | inr (g, h) ↦ absurd (ground (arith, h, e))
  ]
  lap_end conn (x ∷ seen) res fuel s r q e = elim (Fate-cases (fate (status x.body))) [
    | inl h ↦ stop fuel (Round-stays s conn x seen r h) q (ground (arith, h, e))
    | inr (g, h) ↦
        stop fuel (Round-goes s conn x seen g r h) (ground (arith, q)) (ground (arith, h, e))
  ]

  pub traverse_lap :
      (p : ConnectionPool) (conn : Member) (todo seen res : List Member) (fuel s : ℕ)
      → Represents p (conn ∷ (todo ++ seen))
      → length todo < fuel
      → s ≡ head_or seen conn.id
      → lap msgs msg conn todo seen ≡ some res
      → Ends p fuel s conn.id res
  unfolding lap
  traverse_lap p conn todo seen res zero s r l q e = absurd (omega arith)
  traverse_lap p conn [] seen res (suc fuel) s r l q e = lap_end conn seen res fuel s r q e
  traverse_lap p conn (b ∷ []) seen res (suc fuel) s r l q e =
      let n : s ≢ b.id =
        subst (λ x. x ≢ b.id) (sym q) (start_ne b conn [] seen r.distinct.0.0 r.distinct.1.0) in
      elim (Fate-cases (fate (status b.body))) [
        | inl h ↦
            let w = Round-stays s conn b seen r h in
            go_on fuel w n (
              traverse_lap w.ahead (ready msgs b) [] (seen ++ (got msg conn ∷ [])) res fuel s
                w.represents (omega arith) (q ∙ sym (head_or-snoc seen (got msg conn) b.id))
                (ground (arith, h, e)))
        | inr (g, h) ↦
            stop fuel (Round-goes s conn b seen g r h) (ground (arith, q, n)) (ground (arith, h, e))
      ]
  traverse_lap p conn (b ∷ c ∷ todo) seen res (suc fuel) s r l q e =
      let n : s ≢ b.id =
        subst (λ x. x ≢ b.id) (sym q)
          (start_ne b conn (c ∷ todo) seen r.distinct.0.0 r.distinct.1.0) in
      let k : s ≢ c.id =
        subst (λ x. x ≢ c.id) (sym q)
          (start_ne c conn todo seen r.distinct.0.1.0 r.distinct.1.1.0) in
      elim (Fate-cases (fate (status b.body))) [
        | inl h ↦
            let w = Round-stays s conn b (c ∷ todo ++ seen) r h in
            go_on fuel w n (
              traverse_lap w.ahead (ready msgs b) (c ∷ todo) (seen ++ (got msg conn ∷ [])) res fuel
                s
                (subst (λ ring. Represents w.ahead (ready msgs b ∷ ring))
                  (append_assoc (c ∷ todo) seen (got msg conn ∷ [])) w.represents)
                (omega arith) (q ∙ sym (head_or-snoc seen (got msg conn) b.id))
                (ground (arith, h, e)))
        | inr (g, h) ↦
            let ring = (c ∷ todo ++ seen) ++ (got msg conn ∷ []) in
            let w =
              subst (λ t. Round p s conn.id t c.id ring) (if_neg (ℕ_discrete s b.id) n c.id s)
                (Round-goes s conn b (c ∷ todo ++ seen) g r h) in
            go_on fuel w k (
              traverse_lap w.ahead c todo (seen ++ (got msg conn ∷ [])) res fuel s
                (subst (λ ring. Represents w.ahead (c ∷ ring))
                  (append_assoc todo seen (got msg conn ∷ [])) w.represents)
                (omega arith) (q ∙ sym (head_or-snoc seen (got msg conn) c.id))
                (ground (arith, h, e)))
      ]
