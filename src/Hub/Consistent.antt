-- ===== src/Hub/Consistent.antt =====
-- The table and the balancers in all the hubs that can be reached, whether or not handshakes of one UUID
-- meet in setupNewConnection.
use grav.Common.{
  ◌≡◌, ◌≤◌, refl, subst, sym, arith, ℕ, String, Bool, true, false, List, [], ◌∷◌, none, some,
  lookup, lookup-insert, lookup-delete, Option-cases, inl, inr, Map,
}
use grav.Balancer.Valid.{count, count-remove}
use grav.Message.{Message}
use grav.Transport.{Conn, Wire}
use grav.ConnectionHandler.{ConnectionHandler, new_signaler}
use grav.Hub.{Hub, init_hub, close, add_connection, add_topic_connection, setup_new_connection}
use grav.Hub.Traffic.{remove_mesh_connection, signal_each, TunnelResult, tunnel_loop}
use grav.Hub.Table.{
  uuids_of, interest, AllValid, IsConsistent, init_hub-IsConsistent, insert-IsConsistent,
  next-IsConsistent, next_keeps, insert-AllValid, remove_each-AllValid,
  setup_new_connection-IsConsistent, setup_new_connection_new, setup_new_connection_known,
  remove_mesh_connection-IsConsistent, count-add_interests, add_interests-AllValid,
  lookup-remove_each,
}
use grav.Hub.Reach.{Keeps, Reachable, reach_keeps, step_keeps, tunnelled}

interest-signal_each :
    (m m' : Map ConnectionHandler) (c u : String)
    → signal_each m ≡ some m'
    → interest c (lookup u m') ≡ interest c (lookup u m)
unfolding signal_each lookup
interest-signal_each [] m' c u e = ground arith
interest-signal_each ((v, d) ∷ m) m' c u e = elim (Option-cases (signal_each m)) [
  | inl out ↦ ground (arith, out)
  | inr (m'', e') ↦ ground (arith, e', interest-signal_each m m'' c u e')
]

signal_each-none :
    (m m' : Map ConnectionHandler) (k : String)
    → signal_each m ≡ some m'
    → lookup k m' ≡ none
    → lookup k m ≡ none
unfolding signal_each lookup
signal_each-none [] m' k e l = refl
signal_each-none ((j, d) ∷ m) m' k e l = elim (Option-cases (signal_each m)) [
  | inl out ↦ absurd (ground (arith, out, e))
  | inr (m'', e') ↦ ground (arith, e', e, l, signal_each-none m m'' k e')
]

IsConsistent-kept : Keeps IsConsistent
unfolding close add_topic_connection
IsConsistent-kept = record {
  begins = init_hub-IsConsistent;
  closes = λ h conn i. i;
  setups = setup_new_connection-IsConsistent;
  topics = λ h conn topic i. i;
  logs = λ h sends i. i;
  replaces = λ h uuid c c' e same _ i. insert-IsConsistent h uuid c c' e same i;
  turns = next-IsConsistent;
  removes = remove_mesh_connection-IsConsistent;
  signals = λ h m e i. record {
    balanced =
        λ c u. ground (arith, i.balanced c u, interest-signal_each h.mesh_connections m c u e);
    valid = i.valid;
  };
}

pub tunnel_loop-IsConsistent :
    (n : ℕ) (w : Wire) (capability : String) (msg : Message) (h h' : Hub) (r : TunnelResult)
    → tunnel_loop n w capability msg h ≡ some (r, h')
    → IsConsistent h
    → IsConsistent h'
tunnel_loop-IsConsistent n w capability msg h h' r e i =
    step_keeps IsConsistent IsConsistent-kept {b = true} tt (tunnelled n w capability msg h h' r e)
      i

-- A UUID stands in the balancer of a capability at least as often as its connection has named that, and
-- not at all if it has no connection.
pub record IsCovered (h : Hub) : Type 0 where
  pub enough :
      (c u : String)
      → interest c (lookup u h.mesh_connections)
        ≤ count u (uuids_of (lookup c h.capability_balancers))
  pub gone :
      (c u : String)
      → lookup u h.mesh_connections ≡ none
      → count u (uuids_of (lookup c h.capability_balancers)) ≡ 0
  pub valid : AllValid h.capability_balancers

add_connection-IsCovered :
    (h : Hub) (conn : Conn) (uuid group : String) (interests : List String)
    → IsCovered h
    → IsCovered (add_connection h conn uuid group interests)
unfolding add_connection
add_connection-IsCovered h conn uuid group interests i =
    let added : ConnectionHandler = record {
      uuid = uuid;
      conn = conn;
      signaler = new_signaler;
      err_chan = 0;
      belongs_to = group;
      interests = interests;
    } in
    record {
      enough = λ c v. ground (
        arith,
        i.enough c v,
        count-add_interests v c uuid interests h.capability_balancers,
        lookup-insert uuid v added h.mesh_connections,
      );
      gone = λ c v e. ground (
        arith,
        e,
        i.gone c v,
        count-add_interests v c uuid interests h.capability_balancers,
        lookup-insert uuid v added h.mesh_connections,
      );
      valid = add_interests-AllValid uuid interests h.capability_balancers i.valid;
    }

setups-IsCovered :
    (h : Hub) (conn : Conn) (uuid group : String) (interests : List String)
    → IsCovered h
    → IsCovered (setup_new_connection h conn uuid group interests)
unfolding close
setups-IsCovered h conn uuid group interests i =
    elim (Option-cases (lookup uuid h.mesh_connections)) [
      | inl out ↦
          subst IsCovered (sym (setup_new_connection_new h conn uuid group interests out))
            (add_connection-IsCovered h conn uuid group interests i)
      | inr (c, e) ↦
          subst IsCovered (sym (setup_new_connection_known h conn uuid group interests c e))
            (record { enough = i.enough; gone = i.gone; valid = i.valid })
    ]

removes-IsCovered : (h : Hub) (u : String) → IsCovered h → IsCovered (remove_mesh_connection h u)
unfolding remove_mesh_connection
removes-IsCovered h u i = record {
  enough = λ c v. elim (Option-cases (lookup c h.capability_balancers)) [
    | inl out ↦ ground (
      arith,
      i.enough c v,
      lookup-remove_each u c h.capability_balancers,
      lookup-delete u v h.mesh_connections,
    )
    | inr (b, e) ↦ ground (
      arith,
      i.enough c v,
      lookup-remove_each u c h.capability_balancers,
      lookup-delete u v h.mesh_connections,
      count-remove b u v,
    )
  ];
  gone = λ c v out'. elim (Option-cases (lookup c h.capability_balancers)) [
    | inl out ↦ ground (arith, lookup-remove_each u c h.capability_balancers)
    | inr (b, e) ↦ ground (
      arith,
      out',
      i.gone c v,
      lookup-remove_each u c h.capability_balancers,
      lookup-delete u v h.mesh_connections,
      count-remove b u v,
    )
  ];
  valid = remove_each-AllValid u h.capability_balancers;
}

IsCovered-kept : Keeps IsCovered
unfolding close add_topic_connection init_hub lookup
IsCovered-kept = record {
  begins = λ n g is. record {
    enough = λ c u. omega arith;
    gone = λ c u e. refl;
    valid = λ c b e. ground arith;
  };
  closes = λ h conn i. record { enough = i.enough; gone = i.gone; valid = i.valid };
  setups = setups-IsCovered;
  topics = λ h conn topic i. record { enough = i.enough; gone = i.gone; valid = i.valid };
  logs = λ h sends i. record { enough = i.enough; gone = i.gone; valid = i.valid };
  replaces = λ h uuid c c' e same _ i. record {
    enough =
        λ d u. ground (arith, e, same, i.enough d u, lookup-insert uuid u c' h.mesh_connections);
    gone = λ d u out. ground (arith, out, i.gone d u, lookup-insert uuid u c' h.mesh_connections);
    valid = i.valid;
  };
  turns = λ h capability b b' uuid l n i.
      let (same, valid') = next_keeps b b' uuid n (i.valid capability b l) in
      record {
        enough = λ c u.
            ground
              (arith, l, same, i.enough c u, lookup-insert capability c b' h.capability_balancers);
        gone = λ c u out.
            ground (
              arith,
              l,
              same,
              i.gone c u out,
              lookup-insert capability c b' h.capability_balancers,
            );
        valid = insert-AllValid capability b' h.capability_balancers valid' i.valid;
      };
  removes = removes-IsCovered;
  signals = λ h m e i. record {
    enough = λ c u. ground (arith, i.enough c u, interest-signal_each h.mesh_connections m c u e);
    gone = λ c u out. i.gone c u (signal_each-none h.mesh_connections m u e out);
    valid = i.valid;
  };
}

abbrev pub Agrees : Bool → Hub → Type 0
Agrees true = IsConsistent
Agrees false = IsCovered

-- Take every hub that handshakes, discoveries, received messages, scans and their parts, withdraws,
-- and the stretches of broadcasts and tunnels between their waits can lead to from a new one. If
-- nothing comes between the two calls of setupNewConnection, a UUID stands in the balancer of a
-- capability exactly as often as its connection has named that capability. If a connection can also
-- be added at any other time, as by a handshake that has looked for its UUID before, it stands
-- there at least as often. In both cases it stands there not at all if it has no connection, and
-- the index of every balancer is in range, or 0 for an empty one.
pub Reachable-Agrees : {b : Bool} {h : Hub} → Reachable b h → Agrees b h
Reachable-Agrees {b = true} r = reach_keeps IsConsistent IsConsistent-kept tt r
Reachable-Agrees {b = false} r = reach_keeps IsCovered IsCovered-kept add_connection-IsCovered r
