-- ===== src/Hub/Tunnel.antt =====
-- One round of a tunnel.
use grav.Common.{
  ◌+◌, ◌-◌, ◌≡◌, arith, String, none, some, ite, dec_le, lookup, insert, length, get_elem?, ◌++◌,
  [], ◌∷◌, true,
}
use grav.Message.{Message}
use grav.Balancer
use grav.Balancer.{Balancer}
use grav.Transport.{Wire}
use grav.ConnectionHandler.{ConnectionHandler}
use grav.Hub.{Hub}
use grav.Hub.Traffic.{delivered, passed_over, held, try_tunnel}
use grav.Hub.Calls.{called, Withdrawn, Taken, Refused, after_wait}

-- The balancer one place on, round the end.
abbrev pub turned : Balancer → Balancer
turned b = record b { index = ite (dec_le (length b.uuids - 1) b.index) 0 (b.index + 1) }

-- The hub with the balancer one place on.
abbrev pub passed : String → Hub → Balancer → Hub
passed capability h b = record h {
  capability_balancers = insert capability (turned b) h.capability_balancers;
}

pub next-turned :
    (b : Balancer) (uuid : String)
    → get_elem? b.uuids b.index ≡ some uuid
    → Balancer.next b ≡ some (uuid, turned b)
unfolding Balancer.next
next-turned b uuid g = ground (arith, g)

-- A round that comes to the UUID `uuid`.
module _ (w : Wire) (capability : String) (msg : Message) (h : Hub) (b : Balancer) (uuid : String)
    (l : lookup capability h.capability_balancers ≡ some b)
    (g : get_elem? b.uuids b.index ≡ some uuid) where
  pub try_tunnel-unknown :
      lookup uuid h.mesh_connections ≡ none
      → try_tunnel w capability msg h ≡ some (passed_over, passed capability h b)
  unfolding try_tunnel Balancer.next
  try_tunnel-unknown out = ground (arith, l, g)

  pub try_tunnel-Withdrawn :
      (c : ConnectionHandler)
      → lookup uuid h.mesh_connections ≡ some c
      → Withdrawn w msg c h.sends
      → try_tunnel w capability msg h ≡ some (passed_over, passed capability h b)
  unfolding try_tunnel Balancer.next
  try_tunnel-Withdrawn c e s = ground (arith, l, g)

  pub try_tunnel-Taken :
      (c : ConnectionHandler)
      → lookup uuid h.mesh_connections ≡ some c
      → Taken w msg c h.sends
      → try_tunnel w capability msg h
        ≡ some (
          delivered,
          record (passed capability h b) { sends = h.sends ++ (called c msg true ∷ []) },
        )
  unfolding try_tunnel Balancer.next
  try_tunnel-Taken c e s = ground (arith, l, g)

  pub try_tunnel-Refused :
      (c : ConnectionHandler)
      → lookup uuid h.mesh_connections ≡ some c
      → Refused w msg c h.sends
      → try_tunnel w capability msg h ≡ some (held, after_wait (passed capability h b) uuid c msg)
  unfolding try_tunnel Balancer.next
  try_tunnel-Refused c e s = ground (arith, l, g)
