-- ===== src/Tests/Societies.antt =====
-- A node with its pods.
use grav.Common.{ℕ, List, All, ◌≡◌, refl, true, [], ◌∷◌, ◌++◌, none, some, inl, inr, ℕ_discrete}
use grav.Message.{Message}
use grav.PodConnection.{PodConnection, new_pod_connection}
use grav.Pool.{update, insert, insert_after}
use grav.Pool.Ring.{Member, Represents, conn_at}
use grav.Bus.{MessageBus, new_message_bus, add_pod, handle}
use grav.Pod.{FuncResult, ok, failed}
use mathlib.Core.List.{Perm}
use grav.Node.{
  Node, newcomer, post, set_owner, Reachable as NodeReachable, started, stepped, connected, posted,
}
use grav.Node.Fair.{IsFaithful, whereabouts}
use grav.Bus.Members.{HasId}
use grav.Node.Broadcast.{nothing_lost, Hears, broadcast, heard_by_others}
use grav.Tests.Samples.{quiet as calm, message}

-- The bus of an instance whose hub has connected.
abbrev hub_bus : MessageBus
hub_bus = record {
  pool = record {
    heap = update (λ _. none) 1 (conn_at (calm 1 []) 1);
    current = some 1;
    max_id = 1;
  };
  buffer = new_message_bus.buffer;
}

-- A node of two pods, of which the second fails on every message and has sent one.
abbrev pleased : Message → FuncResult
pleased msg = ok

abbrev angry : Message → FuncResult
angry msg = failed

abbrev two_bus : MessageBus
two_bus = record {
  pool = record {
    heap =
        update
          (update (update hub_bus.pool.heap 2 (record (conn_at (calm 2 []) 0) { next = none })) 1
            (conn_at (calm 1 []) 2))
          2 (conn_at (calm 2 []) 1);
    current = some 1;
    max_id = 2;
  };
  buffer = new_message_bus.buffer;
}

abbrev two_pods : Node
two_pods = record {
  bus = two_bus;
  queue = message "d" ∷ [];
  owners =
      set_owner (set_owner (λ a. newcomer pleased) 2 (newcomer angry)) 2
        (post (newcomer angry) (message "d")).1;
  ids = 2 ∷ 1 ∷ [];
}

two_pods-Reachable : NodeReachable two_pods
unfolding add_pod insert new_message_bus new_pod_connection insert_after update ℕ_discrete post
    newcomer
two_pods-Reachable =
    stepped (stepped (started pleased hub_bus (λ msg. refl) refl) (connected angry two_bus refl))
      (posted 2 (message "d"))

first-IsFaithful : IsFaithful (two_pods.owners 1)
unfolding newcomer ℕ_discrete
first-IsFaithful = record { func = pleased; set = refl; always = λ msg. refl; live = refl }

broadcast_example :
    (c : PodConnection) × (two_bus.pool.heap 1 ≡ some c)
    × (c.connected ≡ true)
    × Perm ((two_pods.owners 1).settled ++ (c.message_chan ++ c.sends)) (two_pods.owners 1).told
broadcast_example = broadcast 1 two_pods-Reachable (inr (inl refl)) first-IsFaithful

nothing_lost_example :
    (ring : List Member) × Represents two_bus.pool ring
    × HasId 1 ring
    × All (λ m. Perm (whereabouts (two_pods.owners m.id) m) (two_pods.owners m.id).told) ring
    × ((fuel : ℕ) × (bus : MessageBus) × (handle fuel two_bus (message "d") ≡ some bus))
nothing_lost_example = nothing_lost (message "d") two_pods-Reachable

heard_by_others_example :
    (ring : List Member) × Represents two_bus.pool ring
    × All (λ m. Hears (two_pods.owners m.id) (message "d")) ring
heard_by_others_example = heard_by_others (message "d") two_pods-Reachable
