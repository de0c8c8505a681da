-- ===== src/Hub/Table.antt =====
-- The table of connections against the balancers of the capabilities.
use grav.Common.{
  subst, sym, map, ℕ, ◌+◌, ◌≡◌, refl, arith, String, List, [], ◌∷◌, ◌++◌, Option, none, some, ite,
  string_discrete, Map, lookup, insert, lookup-insert, lookup-delete, Option-cases, inl, inr,
}
use grav.Balancer
use grav.Balancer.{Balancer, new_balancer, add, remove}
use grav.Balancer.Valid.{
  IsValid, next-IsValid, new_balancer-IsValid, add-IsValid, remove-IsValid, count, count-remove,
}
use grav.Transport.{Conn}
use grav.ConnectionHandler.{ConnectionHandler, new_signaler}
use grav.Hub.{
  Hub, or_new, add_interests, add_connection, setup_new_connection, find_connection, close,
  init_hub,
}
use grav.Hub.Traffic.{
  remove_each, remove_mesh_connection, remove_all, scan_failed_mesh_connections, failed_handlers,
}

abbrev pub uuids_of : Option Balancer → List String
uuids_of none = []
uuids_of (some b) = b.uuids

-- How often a connection has named a capability.
abbrev pub interest : String → Option ConnectionHandler → ℕ
interest capability none = 0
interest capability (some c) = count capability c.interests

abbrev pub AllValid : Map Balancer → Type 0
AllValid m = (c : String) (b : Balancer) → lookup c m ≡ some b → IsValid b

pub next_keeps :
    (b b' : Balancer) (uuid : String)
    → Balancer.next b ≡ some (uuid, b')
    → IsValid b
    → (b'.uuids ≡ b.uuids) × IsValid b'
unfolding Balancer.next
next_keeps b b' uuid n v = (ground (arith, n), next-IsValid b b' uuid n)

pub record InStep (m : Map ConnectionHandler) (balancers : Map Balancer) : Type 0 where
  pub balanced :
      (capability uuid : String)
      → count uuid (uuids_of (lookup capability balancers)) ≡ interest capability (lookup uuid m)
  pub valid : AllValid balancers

abbrev pub IsConsistent : Hub → Type 0
IsConsistent h = InStep h.mesh_connections h.capability_balancers

pub init_hub-IsConsistent :
    (node_uuid belongs_to : String) (interests : List String)
    → IsConsistent (init_hub node_uuid belongs_to interests)
unfolding init_hub lookup
init_hub-IsConsistent node_uuid belongs_to interests = record {
  balanced = λ c u. refl;
  valid = λ c b e. ground arith;
}

count-add :
    (v u : String) (b : Balancer)
    → count v (add b u).uuids ≡ count v b.uuids + ite (string_discrete u v) 1 0
unfolding add
count-add v u b = count-snoc b.uuids
  where
    count-snoc :
        (xs : List String) → count v (xs ++ (u ∷ [])) ≡ count v xs + ite (string_discrete u v) 1 0
    count-snoc [] = ground arith
    count-snoc (x ∷ xs) = ground (arith, count-snoc xs)

pub count-add_interests :
    (v c u : String) (cs : List String) (m : Map Balancer)
    → count v (uuids_of (lookup c (add_interests u cs m)))
      ≡ count v (uuids_of (lookup c m)) + ite (string_discrete u v) (count c cs) 0
unfolding add_interests new_balancer
count-add_interests v c u [] m = ground arith
count-add_interests v c u (d ∷ cs) m =
    let b = or_new (lookup d m) in
    ground (
      arith,
      count-add_interests v c u cs (insert d (add b u) m),
      lookup-insert d c (add b u) m,
      count-add v u b,
    )

pub add_interests-AllValid :
    (u : String) (cs : List String) (m : Map Balancer)
    → AllValid m
    → AllValid (add_interests u cs m)
unfolding add_interests
add_interests-AllValid u [] m v = v
add_interests-AllValid u (d ∷ cs) m v =
    add_interests-AllValid u cs (insert d (add (or_new (lookup d m)) u) m) inserted
  where
    inserted : AllValid (insert d (add (or_new (lookup d m)) u) m)
    inserted c b e =
        let l = lookup-insert d c (add (or_new (lookup d m)) u) m in
        elim (Option-cases (lookup d m)) [
          | inl out ↦ ground (arith, l, v c b, add-IsValid new_balancer u new_balancer-IsValid)
          | inr (b', e') ↦ ground (arith, l, v c b, add-IsValid b' u (v d b' e'))
        ]

add_connection-IsConsistent :
    (h : Hub) (conn : Conn) (uuid belongs_to : String) (interests : List String)
    → lookup uuid h.mesh_connections ≡ none
    → IsConsistent h
    → IsConsistent (add_connection h conn uuid belongs_to interests)
unfolding add_connection
add_connection-IsConsistent h conn uuid belongs_to interests out i = record {
  balanced = λ c v. ground (
    arith,
    i.balanced c v,
    count-add_interests v c uuid interests h.capability_balancers,
    lookup-insert uuid v
        (record {
          uuid = uuid;
          conn = conn;
          signaler = new_signaler;
          err_chan = 0;
          belongs_to = belongs_to;
          interests = interests;
        })
        h.mesh_connections,
  );
  valid = add_interests-AllValid uuid interests h.capability_balancers i.valid;
}

-- Where the UUID is new, the connection is added.
pub setup_new_connection_new :
    (h : Hub) (conn : Conn) (uuid belongs_to : String) (interests : List String)
    → lookup uuid h.mesh_connections ≡ none
    → setup_new_connection h conn uuid belongs_to interests
      ≡ add_connection h conn uuid belongs_to interests
unfolding setup_new_connection find_connection
setup_new_connection_new h conn uuid belongs_to interests out = ground arith

pub setup_new_connection_known :
    (h : Hub) (conn : Conn) (uuid belongs_to : String) (interests : List String)
    (c : ConnectionHandler)
    → lookup uuid h.mesh_connections ≡ some c
    → setup_new_connection h conn uuid belongs_to interests ≡ close h conn
unfolding setup_new_connection find_connection
setup_new_connection_known h conn uuid belongs_to interests c e = ground arith

pub setup_new_connection-IsConsistent :
    (h : Hub) (conn : Conn) (uuid belongs_to : String) (interests : List String)
    → IsConsistent h
    → IsConsistent (setup_new_connection h conn uuid belongs_to interests)
unfolding close
setup_new_connection-IsConsistent h conn uuid belongs_to interests i =
    elim (Option-cases (lookup uuid h.mesh_connections)) [
      | inl out ↦
          subst IsConsistent (sym (setup_new_connection_new h conn uuid belongs_to interests out))
            (add_connection-IsConsistent h conn uuid belongs_to interests out i)
      | inr (c, e) ↦
          subst IsConsistent (sym (setup_new_connection_known h conn uuid belongs_to interests c e))
            i
    ]

pub lookup-remove_each :
    (u c : String) (m : Map Balancer)
    → lookup c (remove_each u m) ≡ elim (lookup c m) [ none ↦ none | some b ↦ some (remove b u) ]
unfolding lookup remove_each
lookup-remove_each u c [] = refl
lookup-remove_each u c ((d, b) ∷ m) = ground (arith, lookup-remove_each u c m)

pub remove_each-AllValid : (u : String) (m : Map Balancer) → AllValid (remove_each u m)
remove_each-AllValid u m c b' e' = elim (Option-cases (lookup c m)) [
  | inl out ↦ ground (arith, lookup-remove_each u c m)
  | inr (b, e) ↦ ground (arith, lookup-remove_each u c m, remove-IsValid b u)
]

pub remove_mesh_connection-IsConsistent :
    (h : Hub) (u : String) → IsConsistent h → IsConsistent (remove_mesh_connection h u)
unfolding remove_mesh_connection
remove_mesh_connection-IsConsistent h u i = record {
  balanced = λ c v. elim (Option-cases (lookup c h.capability_balancers)) [
    | inl out ↦ ground (
      arith,
      i.balanced c v,
      lookup-remove_each u c h.capability_balancers,
      lookup-delete u v h.mesh_connections,
    )
    | inr (b, e) ↦ ground (
      arith,
      i.balanced c v,
      lookup-remove_each u c h.capability_balancers,
      lookup-delete u v h.mesh_connections,
      count-remove b u v,
    )
  ];
  valid = remove_each-AllValid u h.capability_balancers;
}

pub remove_all-IsConsistent :
    (h : Hub) (cs : List ConnectionHandler) → IsConsistent h → IsConsistent (remove_all h cs)
unfolding remove_all
remove_all-IsConsistent h [] i = i
remove_all-IsConsistent h (c ∷ cs) i =
    remove_all-IsConsistent (remove_mesh_connection h c.uuid) cs
      (remove_mesh_connection-IsConsistent h c.uuid i)

pub scan-IsConsistent : (h : Hub) → IsConsistent h → IsConsistent (scan_failed_mesh_connections h)
unfolding scan_failed_mesh_connections
scan-IsConsistent h i =
    let failed = failed_handlers h.mesh_connections in
    remove_all-IsConsistent (record h { closed = h.closed ++ map (λ c. c.conn) failed }) failed i

-- Another handler for the same peer, with the same interests.
pub insert-IsConsistent :
    (h : Hub) (uuid : String) (c c' : ConnectionHandler)
    → lookup uuid h.mesh_connections ≡ some c
    → c'.interests ≡ c.interests
    → IsConsistent h
    → IsConsistent (record h { mesh_connections = insert uuid c' h.mesh_connections })
insert-IsConsistent h uuid c c' e same i = record {
  balanced =
      λ d u. ground (arith, e, same, i.balanced d u, lookup-insert uuid u c' h.mesh_connections);
  valid = i.valid;
}

pub insert-AllValid :
    (capability : String) (b' : Balancer) (m : Map Balancer)
    → IsValid b'
    → AllValid m
    → AllValid (insert capability b' m)
insert-AllValid capability b' m valid' v c d e =
    ground (arith, v c d, valid', lookup-insert capability c b' m)

-- The balancer of a capability, after a call of Next.
pub next-IsConsistent :
    (h : Hub) (capability : String) (b b' : Balancer) (uuid : String)
    → lookup capability h.capability_balancers ≡ some b
    → Balancer.next b ≡ some (uuid, b')
    → IsConsistent h
    → IsConsistent (record h { capability_balancers = insert capability b' h.capability_balancers })
next-IsConsistent h capability b b' uuid l n i =
    let (same, valid') = next_keeps b b' uuid n (i.valid capability b l) in
    record {
      balanced = λ c u.
          ground
            (arith, l, same, i.balanced c u, lookup-insert capability c b' h.capability_balancers);
      valid = insert-AllValid capability b' h.capability_balancers valid' i.valid;
    }
