-- ===== src/Pool/Change.antt =====
-- A write to the connection at an address, whichever member of the ring that is.
use grav.Common.{
  ◌≤◌, ℕ, ◌≡◌, ◌≢◌, refl, sym, ap, subst, ◌∙◌, List, [], ◌∷◌, some, arith, ite, ℕ_discrete, All,
}
use grav.PodConnection.{Ptr, PodConnection}
use grav.Pool.{Heap, update, ConnectionPool, store}
use grav.Pool.Ring.{
  Body, Member, conn_at, head_or, Seg, Absent, DistinctIds, first_id, Represents, update_self,
  update_ne,
}

module _ (a : Ptr) (g : Body → Body) where
  abbrev pub with_body : Member → Member
  with_body m = record m { body = g m.body }

  abbrev pub changed : Member → Member
  changed m = ite (ℕ_discrete m.id a) (with_body m) m

  abbrev pub changed_all : List Member → List Member
  changed_all [] = []
  changed_all (m ∷ ms) = changed m ∷ changed_all ms

  pub id-changed : (m : Member) → (changed m).id ≡ m.id
  id-changed m = ground arith

  pub head_or-changed_all : (ms : List Member) (e : Ptr) → head_or (changed_all ms) e ≡ head_or ms e
  head_or-changed_all [] e = refl
  head_or-changed_all (m ∷ ms) e = id-changed m

  All-changed_all :
      (P : ℕ → Type 0) (ms : List Member)
      → All (λ m. P m.id) ms
      → All (λ m. P m.id) (changed_all ms)
  All-changed_all P [] h = tt
  All-changed_all P (m ∷ ms) h = (subst P (sym (id-changed m)) h.0, All-changed_all P ms h.1)

  DistinctIds-changed_all : (ms : List Member) → DistinctIds ms → DistinctIds (changed_all ms)
  DistinctIds-changed_all [] d = tt
  DistinctIds-changed_all (m ∷ ms) d = (
    subst (λ i. Absent i (changed_all ms)) (sym (id-changed m))
        (All-changed_all (λ i. i ≢ m.id) ms d.0),
    DistinctIds-changed_all ms d.1,
  )

  first_id-changed_all : (ms : List Member) → first_id (changed_all ms) ≡ first_id ms
  first_id-changed_all [] = refl
  first_id-changed_all (m ∷ ms) = ap some (id-changed m)

  -- The new connection is the old one with its body changed, if that is a member.
  abbrev pub Changes : PodConnection → PodConnection → Type 0
  Changes c c' = (m : Member) (k : Ptr) → c ≡ conn_at m k → c' ≡ conn_at (with_body m) k

  module _ (c c' : PodConnection) (f : Changes c c') where
    stored_at :
        (h : Heap) (k : Ptr) (m : Member)
        → h a ≡ some c
        → h m.id ≡ some (conn_at m k)
        → update h a c' (changed m).id ≡ some (conn_at (changed m) k)
    stored_at h k m l s = elim (ℕ_discrete m.id a) [
      | yes e ↦
          let same : c ≡ conn_at m k = ground (arith, l, s, e) in
          ground (arith, f m k same, e, update_self h a c')
      | no n ↦ ground (arith, n, s, update_ne h a m.id c' (λ e. n (sym e)))
    ]

    Seg-stored :
        (h : Heap) (e : Ptr) (ms : List Member)
        → h a ≡ some c
        → DistinctIds ms
        → Seg h e ms
        → Seg (update h a c') e (changed_all ms)
    Seg-stored h e [] l d s = tt
    Seg-stored h e (m ∷ ms) l d s = (
      stored_at h (head_or ms e) m l s.0
          ∙ ap (λ k. some (conn_at (changed m) k)) (sym (head_or-changed_all ms e)),
      Seg-stored h e ms l d.1 s.1,
    )

    -- On the list of members that member has the new body.
    pub store_refines :
        (p : ConnectionPool) (ms : List Member)
        → p.heap a ≡ some c
        → Represents p ms
        → Represents (store p a c') (changed_all ms)
    unfolding store
    store_refines p ms l r = record {
      current = r.current ∙ sym (first_id-changed_all ms);
      ring =
          subst (λ k. Seg (update p.heap a c') k (changed_all ms)) (sym (head_or-changed_all ms 0))
            (Seg-stored p.heap (head_or ms 0) ms l r.distinct r.ring);
      distinct = DistinctIds-changed_all ms r.distinct;
      bounded = All-changed_all (λ i. i ≤ p.max_id) ms r.bounded;
    }
