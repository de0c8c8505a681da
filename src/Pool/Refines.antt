-- ===== src/Pool/Refines.antt =====
-- The operations of the pool against the list of members.
use grav.Common.{
  ℕ, ◌+◌, ◌≤◌, ◌≡◌, ◌≢◌, refl, sym, ◌∙◌, true, false, List, [], ◌∷◌, ◌++◌, none, some, arith, All,
  All-map,
}
use native.Mathlib.Nat.{le_refl}
use grav.PodConnection.{Ptr, Feedback, PodConnection, new_pod_connection, disconnect}
use grav.Pool.{
  Heap, update, ConnectionPool, new_connection_pool, insert_after, insert, peek, next, delete_next,
}
use grav.Pool.Ring.{
  Member, conn_at, head_or, Absent, Represents, update_self, update_ne, Seg-update,
  rotate-Represents,
}

pub new_connection_pool-Represents : Represents new_connection_pool []
unfolding new_connection_pool
new_connection_pool-Represents = record { current = refl; ring = tt; distinct = tt; bounded = tt }

module _ {p : ConnectionPool} (m : Member) (ms : List Member) (r : Represents p (m ∷ ms)) where
  pub peek_lem : peek p ≡ some (some (head_or ms m.id))
  unfolding peek
  peek_lem = ground (arith, r.current, r.ring.0)

  pub next_lem :
      next p ≡ some (some (head_or ms m.id), record p { current = some (head_or ms m.id) })
  unfolding next
  next_lem = ground (arith, r.current, r.ring.0)

  -- next on a nonempty ring returns the connection behind the current one, or the current one if it
  -- is alone, and the ring is then seen from there: the former current connection comes last.
  pub next_refines :
      (p' : ConnectionPool) × (next p ≡ some (some (head_or ms m.id), p'))
      × Represents p' (ms ++ (m ∷ []))
  next_refines = (_, next_lem, rotate-Represents m ms r)

-- What `newPodConnection` makes.
abbrev pub fresh_member : ℕ → List Feedback → Member
fresh_member id feedback = record {
  id = id;
  body = record { sends = []; message_chan = []; feedback_chan = feedback; failed = [] };
}

Absent-of_bound : (n : ℕ) (ms : List Member) → All (λ m. m.id ≤ n) ms → Absent (n + 1) ms
Absent-of_bound n ms h = All-map _ _ ms (λ m b e. omega arith) h

bound-suc : (n : ℕ) (ms : List Member) → All (λ m. m.id ≤ n) ms → All (λ m. m.id ≤ n + 1) ms
bound-suc n ms h = All-map _ _ ms (λ m b. omega arith) h

-- `insert` puts the new connection behind the current one, or makes a ring of one.
pub insert_empty_refines :
    {p : ConnectionPool} (feedback : List Feedback)
    → Represents p []
    → (p' : ConnectionPool) × (insert p feedback ≡ some p')
      × Represents p' (fresh_member (p.max_id + 1) feedback ∷ [])
unfolding insert new_pod_connection
insert_empty_refines {p} feedback r = (
  p',
  ground (arith, r.current),
  record {
    current = refl;
    ring = (update_self p.heap id c, tt);
    distinct = (tt, tt);
    bounded = (le_refl id, tt);
  },
)
  where
    id : ℕ
    id = p.max_id + 1

    c : PodConnection
    c = conn_at (fresh_member id feedback) id

    p' : ConnectionPool
    p' = record { heap = update p.heap id c; current = some id; max_id = id }

-- insert into a pool that represents a nonempty ring returns, and puts the new connection, with the
-- next ID and the given feedback, directly behind the current one.
pub insert_refines :
    {p : ConnectionPool} (feedback : List Feedback) (m : Member) (ms : List Member)
    → Represents p (m ∷ ms)
    → (p' : ConnectionPool) × (insert p feedback ≡ some p')
      × Represents p' (m ∷ fresh_member (p.max_id + 1) feedback ∷ ms)
unfolding insert insert_after new_pod_connection
insert_refines {p} feedback m ms r = (
  p',
  ground (
    arith,
    r.current,
    r.ring.0,
    update_ne p.heap id m.id new ne,
    update_ne (update p.heap id new) m.id id (conn_at m id) (λ e. ne (sym e)),
    update_self p.heap id new,
  ),
  record {
    current = r.current;
    ring = (
      update_ne h₂ id m.id last ne ∙ update_self h₁ m.id (conn_at m id),
      (
        update_self h₂ id last,
        Seg-update h₂ id m.id last ms absent (
            Seg-update h₁ m.id m.id (conn_at m id) ms r.distinct.0
              (Seg-update p.heap id m.id new ms absent r.ring.1)),
      ),
    );
    distinct = ((ne, r.distinct.0), (absent, r.distinct.1));
    bounded = (omega (arith, r.bounded.0), (le_refl id, bound-suc p.max_id ms r.bounded.1));
  },
)
  where
    id : ℕ
    id = p.max_id + 1

    new : PodConnection
    new = new_pod_connection id feedback

    last : PodConnection
    last = conn_at (fresh_member id feedback) (head_or ms m.id)

    h₁ : Heap
    h₁ = update p.heap id new

    h₂ : Heap
    h₂ = update h₁ m.id (conn_at m id)

    p' : ConnectionPool
    p' = record { heap = update h₂ id last; current = p.current; max_id = id }

    ne : id ≢ m.id
    ne e = omega (arith, r.bounded.0)

    absent : Absent id ms
    absent = Absent-of_bound p.max_id ms r.bounded.1

-- What `deleteNext` leaves of a connection at its old address.
abbrev pub dead_at : Member → Ptr → PodConnection
dead_at m a = record (conn_at m a) { connected = false; closed = true }

-- deleteNext on a ring of two or more cuts the second connection out of the ring, keeps all others
-- in order, and leaves the removed connection disconnected with its channel closed.
pub delete_next_refines :
    {p : ConnectionPool} (m b : Member) (ms : List Member)
    → Represents p (m ∷ b ∷ ms)
    → (p' : ConnectionPool) × (delete_next p ≡ some p')
      × Represents p' (m ∷ ms)
      × (p'.heap b.id ≡ some (dead_at b (head_or ms m.id)))
unfolding delete_next disconnect
delete_next_refines {p} m b ms r = (
  p',
  ground (
    arith,
    r.current,
    r.ring.0,
    r.ring.1.0,
    r.distinct.0.0,
    update_ne p.heap b.id m.id dead r.distinct.0.0,
  ),
  record {
    current = r.current;
    ring = (
      update_self h₁ m.id (conn_at m (head_or ms m.id)),
      Seg-update h₁ m.id m.id (conn_at m (head_or ms m.id)) ms r.distinct.0.1
          (Seg-update p.heap b.id m.id dead ms r.distinct.1.0 r.ring.1.1),
    );
    distinct = (r.distinct.0.1, r.distinct.1.1);
    bounded = (r.bounded.0, r.bounded.1.1);
  },
  update_ne h₁ m.id b.id (conn_at m (head_or ms m.id)) (λ e. r.distinct.0.0 (sym e))
      ∙ update_self p.heap b.id dead,
)
  where
    dead : PodConnection
    dead = dead_at b (head_or ms m.id)

    h₁ : Heap
    h₁ = update p.heap b.id dead

    p' : ConnectionPool
    p' = record p { heap = update h₁ m.id (conn_at m (head_or ms m.id)) }

pub delete_next_single :
    {p : ConnectionPool} (m : Member)
    → Represents p (m ∷ [])
    → (p' : ConnectionPool) × (delete_next p ≡ some p') × Represents p' []
unfolding delete_next disconnect
delete_next_single {p} m r = (
  record p { heap = update p.heap m.id (dead_at m m.id); current = none },
  ground (arith, r.current, r.ring.0),
  record { current = refl; ring = tt; distinct = tt; bounded = tt },
)
