-- ===== src/Hub/Traffic.antt =====
-- The rest of grav/hub.go: messages to the mesh, tunnels, and the end of connections. A map is
-- ranged over in the order of its list.
use grav.Common.{
  ℕ, zero, suc, String, Bool, true, if◌then◌else◌, ◌&&◌, List, [], ◌∷◌, ◌++◌, Option, none, some,
  ite, dec_le, Map, lookup, insert, delete, keys, map, ◌>>=◌,
}
use grav.Message.{Message}
use grav.Balancer
use grav.Balancer.{Balancer}
use grav.Transport.{Wire}
use grav.ConnectionHandler.{ConnectionHandler, send_ok, node_withdrawn, waiting, send, signal}
use grav.Hub.{Hub, tunnel_retry_count}

-- `handler.Send(msg)` on the handlers of some UUIDs, up to the first call that waits: the UUIDs behind it
-- where there is one, and `none` where all calls have returned, whose errors are dropped.
unfoldable pub send_each : Wire → Message → List String → Hub → Option (List String) × Hub
unfolding send
send_each w msg [] h = (none, h)
send_each w msg (uuid ∷ uuids) h = elim (lookup uuid h.mesh_connections) [
  | none ↦ send_each w msg uuids h
  | some handler ↦
      let (result, handler', sends) = send w handler msg h.sends in
      elim result [
        | send_ok ↦ send_each w msg uuids (record h { sends = sends })
        | node_withdrawn ↦ send_each w msg uuids h
        | waiting ↦ (
          some uuids,
          record h { mesh_connections = insert uuid handler' h.mesh_connections; sends = sends },
        )
      ]
]

-- Up to its return (`none`) or to a wait at an ErrChan, with the read lock. After the wait it goes on
-- with `send_each` on the UUIDs that are left.
unfoldable pub message_handler : Wire → Hub → Message → Option (List String) × Hub
unfolding send_each
message_handler w h msg = send_each w msg (keys h.mesh_connections) h

unfoldable pub remove_each : String → Map Balancer → Map Balancer
remove_each uuid [] = []
remove_each uuid ((c, b) ∷ m) = (c, Balancer.remove b uuid) ∷ remove_each uuid m

unfoldable pub remove_mesh_connection : Hub → String → Hub
unfolding remove_each
remove_mesh_connection h uuid = record h {
  mesh_connections = delete uuid h.mesh_connections;
  capability_balancers = remove_each uuid h.capability_balancers;
}

-- An error waits in ErrChan, or the peer has withdrawn.
unfoldable pub is_failed : ConnectionHandler → Bool
is_failed c = ite (dec_le 1 c.err_chan) true c.signaler.peer_withdrawn

unfoldable pub failed_handlers : Map ConnectionHandler → List ConnectionHandler
unfolding is_failed
failed_handlers [] = []
failed_handlers ((uuid, c) ∷ m) = if is_failed c then c ∷ failed_handlers m else failed_handlers m

unfoldable pub remove_all : Hub → List ConnectionHandler → Hub
unfolding remove_mesh_connection
remove_all h [] = h
remove_all h (c ∷ cs) = remove_all (remove_mesh_connection h c.uuid) cs

-- One round of `scanFailedMeshConnections`. An error that is taken from ErrChan belongs to a handler
-- that the round removes.
unfoldable pub scan_failed_mesh_connections : Hub → Hub
unfolding failed_handlers remove_all
scan_failed_mesh_connections h =
    let failed = failed_handlers h.mesh_connections in
    remove_all (record h { closed = h.closed ++ map (λ c. c.conn) failed }) failed

-- What a round of `sendTunneledMessage` comes to: the message is sent, or not, or `handler.Send` waits at
-- ErrChan.
pub data Round : Type 0 where
  delivered passed_over held : Round

-- One round of the loop. `none` is the panic of an empty balancer.
unfoldable pub try_tunnel : Wire → String → Message → Hub → Option (Round × Hub)
unfolding send
try_tunnel w capability msg h = do
  balancer ← lookup capability h.capability_balancers
  (uuid, balancer') ← Balancer.next balancer
  let ahead = record h { capability_balancers = insert capability balancer' h.capability_balancers }
  elim (lookup uuid h.mesh_connections) [
    | none ↦ some (passed_over, ahead)
    | some handler ↦
        let (result, handler', sends) = send w handler msg h.sends in
        some (elim result [
          | send_ok ↦ (delivered, record ahead { sends = sends })
          | node_withdrawn ↦ (passed_over, ahead)
          | waiting ↦ (
            held,
            record ahead {
              mesh_connections = insert uuid handler' h.mesh_connections;
              sends = sends;
            },
          )
        ])
  ]

-- The call returns nil, it returns ErrTunnelNotEstablished, or it waits at an ErrChan with some rounds
-- left, and goes on with those once the scan has taken the error.
pub data TunnelResult : Type 0 where
  tunneled tunnel_not_established : TunnelResult
  waits_with : (rounds : ℕ) → TunnelResult

-- The rounds up to the return or to the first wait.
unfoldable pub tunnel_loop : ℕ → Wire → String → Message → Hub → Option (TunnelResult × Hub)
unfolding try_tunnel
tunnel_loop zero w capability msg h = some (tunnel_not_established, h)
tunnel_loop (suc n) w capability msg h = do
  (round, h') ← try_tunnel w capability msg h
  elim round [
    | delivered ↦ some (tunneled, h')
    | passed_over ↦ tunnel_loop n w capability msg h'
    | held ↦ some (waits_with n, h')
  ]

unfoldable pub send_tunneled_message : Wire → String → Message → Hub → Option (TunnelResult × Hub)
unfolding tunnel_loop
send_tunneled_message w capability msg h = elim (lookup capability h.capability_balancers) [
  | none ↦ some (tunnel_not_established, h)
  | some _ ↦ tunnel_loop tunnel_retry_count w capability msg h
]

-- `conn.Signaler.Signal()` on each handler. `none`: a call waits, and the hub with it.
unfoldable pub signal_each : Map ConnectionHandler → Option (Map ConnectionHandler)
unfolding signal
signal_each [] = some []
signal_each ((uuid, c) ∷ m) =
    let rest = signal_each m in
    let (returned, s) = signal c.signaler in
    if returned then (do m' ← rest; some ((uuid, record c { signaler = s }) ∷ m')) else none

unfoldable pub all_done : (String → Bool) → Map ConnectionHandler → Bool
all_done done [] = true
all_done done ((uuid, c) ∷ m) = done uuid && all_done done m

-- `done` tells whose doneChan is written before the three seconds are over. The Boolean is whether
-- the error is nil; the other error is ErrWaitTimeout.
unfoldable pub withdraw : (String → Bool) → Hub → Option (Bool × Hub)
unfolding signal_each all_done
withdraw done h = do
  m ← signal_each h.mesh_connections
  some (all_done done h.mesh_connections, record h { mesh_connections = m })

unfoldable pub all_close : Wire → Map ConnectionHandler → Bool
all_close w [] = true
all_close w ((uuid, c) ∷ m) = w.close c.conn && all_close w m

-- Whether `lastErr` is nil, and the calls of Close.
unfoldable pub stop : Wire → Hub → Bool × Hub
unfolding all_close
stop w h = (
  all_close w h.mesh_connections,
  record h { closed = h.closed ++ map (λ e. e.1.conn) h.mesh_connections },
)
