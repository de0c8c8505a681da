-- ===== src/Node/Steps.antt =====
-- Every step keeps what is true of the pods and their connections.
use grav.Common.{
  ℕ, ◌+◌, ◌≡◌, ◌≢◌, ◌⊎◌, refl, sym, subst, ◌∙◌, arith, List, [], ◌∷◌, some, inl, inr, All, All-map,
  ℕ_discrete, if_pos, if_neg,
}
use grav.Message.{Message}
use grav.MsgBuffer.Range.{InRange}
use grav.PodConnection.{Ptr}
use grav.Pool.{Heap}
use grav.Pool.Ring.{Body, Member, conn_at, head_or, Seg, Absent, Represents}
use grav.Pool.Refines.{insert_refines, fresh_member}
use grav.Pool.Change.{with_body, changed, changed_all, id-changed}
use grav.Bus.{MessageBus, add_pod}
use grav.Bus.Members.{In, HasId, Absent-ne}
use grav.Pod.{FuncResult}
use grav.Node.{Owner, Node, newcomer, post, set_owner}
use grav.Node.Fair.{IsFaithful, Fair, newcomer-Fair}
use grav.Node.Moves.{post-Fair, post-IsFaithful, IsFaithful-post}

abbrev pub Among : ℕ → List ℕ → Type 0
Among a [] = ⊥
Among a (x ∷ xs) = (x ≡ a) ⊎ Among a xs

-- The hub's pod is faithful, and every faithful pod has its connection in the ring.
pub record IsSound (n : Node) : Type 0 where
  pub ring : List Member
  pub represents : Represents n.bus.pool ring
  pub buffered : InRange n.bus.buffer
  pub hub : IsFaithful (n.owners 1)
  pub first : HasId 1 ring
  pub present : (a : ℕ) → Among a n.ids → IsFaithful (n.owners a) → HasId a ring
  pub fair : All (λ m. Fair (n.owners m.id) m) ring

-- The connection of a member.
pub at_member :
    (h : Heap) (e : Ptr) (ms : List Member) (m : Member)
    → Seg h e ms
    → In m ms
    → (k : Ptr) × (h m.id ≡ some (conn_at m k))
at_member h e [] m s i = absurd i
at_member h e (x ∷ ms) m s (inl q) =
    (head_or ms e, subst (λ (y : Member). h y.id ≡ some (conn_at y (head_or ms e))) q s.0)
at_member h e (x ∷ ms) m s (inr i) = at_member h e ms m s.1 i

module _ (a : Ptr) (g : Body → Body) (os os' : ℕ → Owner) where
  -- What a write to one connection makes of a member.
  one_changed :
      (m : Member)
      → (m.id ≡ a → Fair (os m.id) m → Fair (os' m.id) (with_body a g m))
      → (m.id ≢ a → Fair (os m.id) m → Fair (os' m.id) m)
      → Fair (os m.id) m
      → Fair (os' (changed a g m).id) (changed a g m)
  one_changed m f k h = elim (ℕ_discrete m.id a) [
    | yes e ↦
        subst (λ (x : Member). Fair (os' x.id) x)
          (sym (if_pos (ℕ_discrete m.id a) e (with_body a g m) m)) (f e h)
    | no n ↦
        subst (λ (x : Member). Fair (os' x.id) x)
          (sym (if_neg (ℕ_discrete m.id a) n (with_body a g m) m)) (k n h)
  ]

  pub all_changed :
      (ms : List Member)
      → ((m : Member) → In m ms → m.id ≡ a → Fair (os m.id) m → Fair (os' m.id) (with_body a g m))
      → ((m : Member) → m.id ≢ a → Fair (os m.id) m → Fair (os' m.id) m)
      → All (λ m. Fair (os m.id) m) ms
      → All (λ m. Fair (os' m.id) m) (changed_all a g ms)
  all_changed [] f k h = tt
  all_changed (m ∷ ms) f k h =
      (one_changed m (f m (inl refl)) (k m) h.0, all_changed ms (λ x i. f x (inr i)) k h.1)

  pub HasId-changed_all : (c : ℕ) (ms : List Member) → HasId c ms → HasId c (changed_all a g ms)
  HasId-changed_all c [] h = h
  HasId-changed_all c (m ∷ ms) (inl e) = inl (id-changed a g m ∙ e)
  HasId-changed_all c (m ∷ ms) (inr h) = inr (HasId-changed_all c ms h)

-- The owner elsewhere is the same.
pub owner_ne :
    (os : ℕ → Owner) (a : ℕ) (o : Owner) (m : Member)
    → m.id ≢ a
    → Fair (os m.id) m
    → Fair (set_owner os a o m.id) m
owner_ne os a o m n h = subst (λ x. Fair x m) (sym (if_neg (ℕ_discrete m.id a) n o (os m.id))) h

pub owner_at :
    (os : ℕ → Owner) (a : ℕ) (o : Owner) (m x : Member)
    → m.id ≡ a
    → Fair o x
    → Fair (set_owner os a o m.id) x
owner_at os a o m x e h = subst (λ y. Fair y x) (sym (if_pos (ℕ_discrete m.id a) e o (os m.id))) h

owners_elsewhere :
    (os : ℕ → Owner) (a : ℕ) (o : Owner) (ms : List Member)
    → Absent a ms
    → All (λ m. Fair (os m.id) m) ms
    → All (λ m. Fair (set_owner os a o m.id) m) ms
owners_elsewhere os a o [] n h = tt
owners_elsewhere os a o (m ∷ ms) n h =
    (owner_ne os a o m n.0 h.0, owners_elsewhere os a o ms n.1 h.1)

-- Who is faithful after a change of one owner.
pub IsFaithful-set :
    (os : ℕ → Owner) (a : ℕ) (o : Owner) (x : ℕ)
    → (IsFaithful (os a) → IsFaithful o)
    → IsFaithful (os x)
    → IsFaithful (set_owner os a o x)
IsFaithful-set os a o x f h = elim (ℕ_discrete x a) [
  | yes e ↦
      subst IsFaithful (sym (if_pos (ℕ_discrete x a) e o (os x)))
        (f (subst (λ y. IsFaithful (os y)) e h))
  | no n ↦ subst IsFaithful (sym (if_neg (ℕ_discrete x a) n o (os x))) h
]

pub IsFaithful-back :
    (os : ℕ → Owner) (a : ℕ) (o : Owner) (x : ℕ)
    → (IsFaithful o → IsFaithful (os a))
    → IsFaithful (set_owner os a o x)
    → IsFaithful (os x)
IsFaithful-back os a o x f h = elim (ℕ_discrete x a) [
  | yes e ↦
      subst (λ y. IsFaithful (os y)) (sym e)
        (f (subst IsFaithful (if_pos (ℕ_discrete x a) e o (os x)) h))
  | no n ↦ subst IsFaithful (if_neg (ℕ_discrete x a) n o (os x)) h
]

pub IsFaithful-elsewhere :
    (os : ℕ → Owner) (a : ℕ) (o : Owner) (x : ℕ)
    → x ≢ a
    → IsFaithful (os x)
    → IsFaithful (set_owner os a o x)
IsFaithful-elsewhere os a o x n h = subst IsFaithful (sym (if_neg (ℕ_discrete x a) n o (os x))) h

pub connected-IsSound :
    (n : Node) (f : Message → FuncResult) (bus : MessageBus) (s : IsSound n)
    → add_pod n.bus [] ≡ some bus
    → (ring : List Member) → ring ≡ s.ring
    → IsSound (record n {
      bus = bus;
      owners = set_owner n.owners (n.bus.pool.max_id + 1) (newcomer f);
      ids = (n.bus.pool.max_id + 1) ∷ n.ids;
    })
unfolding add_pod
connected-IsSound n f bus s e [] q = absurd (subst (HasId 1) (sym q) s.first)
connected-IsSound n f bus s e (cur ∷ rest) q =
    let id = n.bus.pool.max_id + 1 in
    let r = subst (Represents n.bus.pool) (sym q) s.represents in
    let fair = subst (All (λ m. Fair (n.owners m.id) m)) (sym q) s.fair in
    let one = subst (HasId 1) (sym q) s.first in
    let (pool, i, r') = insert_refines [] cur rest r in
    let same : record n.bus { pool = pool } ≡ bus = ground (arith, i, e) in
    let new = fresh_member id [] in
    let os = set_owner n.owners id (newcomer f) in
    let absent : Absent id (cur ∷ rest) = ((λ k. r'.distinct.0.0 (sym k)), r'.distinct.1.0) in
    subst (λ b. IsSound (record n { bus = b; owners = os; ids = id ∷ n.ids })) same
      (record {
        ring = cur ∷ new ∷ rest;
        represents = r';
        buffered = s.buffered;
        hub =
            IsFaithful-elsewhere n.owners id (newcomer f) 1
              (λ k. Absent-ne id 1 (cur ∷ rest) absent one (sym k)) s.hub;
        first = widened 1 new one;
        present = λ a j h. elim (ℕ_discrete a id) [
          | yes k ↦ inr (inl (sym k))
          | no k ↦ elim j [
            | inl z ↦ inr (inl z)
            | inr z ↦ widened a new (
                subst (HasId a) (sym q) (
                  s.present a z
                    (subst IsFaithful (if_neg (ℕ_discrete a id) k (newcomer f) (n.owners a)) h)))
          ]
        ];
        fair = (
          owner_ne n.owners id (newcomer f) cur (λ k. r'.distinct.0.0 (sym k)) fair.0,
          (
            owner_at n.owners id (newcomer f) new new refl (newcomer-Fair f id),
            owners_elsewhere n.owners id (newcomer f) rest r'.distinct.1.0 fair.1,
          ),
        );
      })
  where
    widened : (a : ℕ) (new : Member) → HasId a (cur ∷ rest) → HasId a (cur ∷ new ∷ rest)
    widened a new (inl k) = inl k
    widened a new (inr k) = inr (inr k)

pub posted-IsSound :
    (n : Node) (a : ℕ) (msg : Message) (queue : List Message)
    → IsSound n
    → IsSound (record n { queue = queue; owners = set_owner n.owners a (post (n.owners a) msg).1 })
posted-IsSound n a msg queue s =
    let o = (post (n.owners a) msg).1 in
    record {
      ring = s.ring;
      represents = s.represents;
      buffered = s.buffered;
      hub = IsFaithful-set n.owners a o 1 (IsFaithful-post (n.owners a) msg) s.hub;
      first = s.first;
      present = λ x i f.
          s.present x i (IsFaithful-back n.owners a o x (post-IsFaithful (n.owners a) msg) f);
      fair = All-map _ _ s.ring (λ (m : Member) h. each m h) s.fair;
    }
  where
    each :
        (m : Member)
        → Fair (n.owners m.id) m
        → Fair (set_owner n.owners a (post (n.owners a) msg).1 m.id) m
    each m h = elim (ℕ_discrete m.id a) [
      | yes e ↦
          owner_at n.owners a (post (n.owners a) msg).1 m m e
            (post-Fair (n.owners a) m msg (subst (λ x. Fair (n.owners x) m) e h))
      | no k ↦ owner_ne n.owners a (post (n.owners a) msg).1 m k h
    ]
