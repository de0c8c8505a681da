-- ===== src/Hub/Reach.antt =====
-- What a hub can go through, step after step.
use grav.Common.{
  ◌≡◌, refl, sym, subst, arith, ℕ, String, Bool, true, false, List, [], ◌∷◌, ◌++◌, Option, none,
  some, lookup, insert, map, Option-cases, inl, inr, Map, append-nil, append_assoc,
}
use grav.Message.{Message}
use grav.Balancer
use grav.Balancer.{Balancer}
use grav.Transport.{
  Conn, TransportHandshake, TransportHandshakeAck, Sending, Wire, ReadResult, read_failed,
  read_withdraw, read_msg,
}
use grav.ConnectionHandler.{ConnectionHandler, read, send_withdraw}
use grav.Hub.{
  Hub, init_hub, close, handle_incoming_connection, connect_endpoint, discovery_handler,
  connect_bridge_topic, add_topic_connection, add_connection, setup_new_connection,
}
use grav.Hub.Traffic.{
  send_each, failed_handlers, remove_mesh_connection, remove_all, scan_failed_mesh_connections,
  TunnelResult, tunnel_loop, signal_each, withdraw,
}
use grav.Hub.Calls.{more_errors, send_each_keeps, tunnel_loop_keeps}
use grav.Hub.Accept.{incoming_keeps, connect_keeps, discovered_keeps}

-- Each step is a stretch of a goroutine of which nothing else of the hub sees the inside: a call under
-- the lock; a call of messageHandler or of sendTunneledMessage from its start, or from the end of a
-- wait at an ErrChan, up to its return or to the next wait. `scan_closed` and `removed` are
-- the parts of a scan that had to wait for the lock. At `true` nothing comes between the two calls of setupNewConnection; at `false` the
-- second one can come at any time, in the step `added`.
pub data HubStep : Bool → Hub → Hub → Type 0 where
  added :
      (h : Hub) (conn : Conn) (uuid group : String) (interests : List String)
      → HubStep false h (add_connection h conn uuid group interests)
  incoming :
      {b : Bool} (h : Hub) (conn : Conn) (x : Option TransportHandshake) (ok : Bool)
      → HubStep b h (handle_incoming_connection h conn x ok)
  connected :
      {b : Bool} (h : Hub) (uuid : String) (conn : Option (Option Conn))
      (ack : Option TransportHandshakeAck)
      → HubStep b h (connect_endpoint h uuid conn ack).1
  discovered :
      {b : Bool} (h : Hub) (uuid : String) (conn : Option (Option Conn))
      (ack : Option TransportHandshakeAck)
      → HubStep b h (discovery_handler h uuid conn ack)
  bridged :
      {b : Bool} (h : Hub) (topic : String) (conn : Option (Option Conn))
      → HubStep b h (connect_bridge_topic h topic conn).1
  broadcast :
      {b : Bool} (w : Wire) (h : Hub) (msg : Message) (uuids : List String)
      → HubStep b h (send_each w msg uuids h).1
  tunnelled :
      {b : Bool} (n : ℕ) (w : Wire) (capability : String) (msg : Message) (h h' : Hub)
      (r : TunnelResult)
      → tunnel_loop n w capability msg h ≡ some (r, h')
      → HubStep b h h'
  received :
      {b : Bool} (h : Hub) (uuid : String) (c : ConnectionHandler) (r : ReadResult)
      → lookup uuid h.mesh_connections ≡ some c
      → HubStep b h (record h { mesh_connections = insert uuid (read c r).0 h.mesh_connections })
  withdraw_sent :
      {b : Bool} (h : Hub) (uuid : String) (c : ConnectionHandler) (sent : Bool)
      → lookup uuid h.mesh_connections ≡ some c
      → HubStep b h
          (record h { mesh_connections = insert uuid (send_withdraw c sent).1 h.mesh_connections })
  scanned : {b : Bool} (h : Hub) → HubStep b h (scan_failed_mesh_connections h)
  scan_closed : {b : Bool} (h : Hub) (conn : Conn) → HubStep b h (close h conn)
  removed : {b : Bool} (h : Hub) (uuid : String) → HubStep b h (remove_mesh_connection h uuid)
  withdrawn :
      {b : Bool} (done : String → Bool) (h h' : Hub) (ok : Bool)
      → withdraw done h ≡ some (ok, h')
      → HubStep b h h'

pub data Reachable : Bool → Hub → Type 0 where
  started :
      {b : Bool} (node_uuid belongs_to : String) (interests : List String)
      → Reachable b (init_hub node_uuid belongs_to interests)
  stepped : {b : Bool} {h h' : Hub} → Reachable b h → HubStep b h h' → Reachable b h'

interests-read : (c : ConnectionHandler) (r : ReadResult) → (read c r).0.interests ≡ c.interests
unfolding read
interests-read c read_failed = ground arith
interests-read c (read_withdraw ack) = refl
interests-read c (read_msg msg) = refl

uuid-read : (c : ConnectionHandler) (r : ReadResult) → (read c r).0.uuid ≡ c.uuid
unfolding read
uuid-read c read_failed = ground arith
uuid-read c (read_withdraw ack) = refl
uuid-read c (read_msg msg) = refl

interests-send_withdraw :
    (c : ConnectionHandler) (sent : Bool) → (send_withdraw c sent).1.interests ≡ c.interests
unfolding send_withdraw
interests-send_withdraw c sent = ground arith

uuid-send_withdraw : (c : ConnectionHandler) (sent : Bool) → (send_withdraw c sent).1.uuid ≡ c.uuid
unfolding send_withdraw
uuid-send_withdraw c sent = ground arith

-- What a property of hubs has to outlast to hold in all that can be reached.
pub record Keeps (P : Hub → Type 0) : Type 0 where
  pub begins :
      (node_uuid belongs_to : String) (interests : List String)
      → P (init_hub node_uuid belongs_to interests)
  pub closes : (h : Hub) (conn : Conn) → P h → P (close h conn)
  pub setups :
      (h : Hub) (conn : Conn) (uuid group : String) (interests : List String)
      → P h
      → P (setup_new_connection h conn uuid group interests)
  pub topics :
      (h : Hub) (conn : Conn) (topic : String) → P h → P (add_topic_connection h conn topic)
  pub logs : (h : Hub) (sends : List Sending) → P h → P (record h { sends = sends })
  pub replaces :
      (h : Hub) (uuid : String) (c c' : ConnectionHandler)
      → lookup uuid h.mesh_connections ≡ some c
      → c'.interests ≡ c.interests
      → c'.uuid ≡ c.uuid
      → P h
      → P (record h { mesh_connections = insert uuid c' h.mesh_connections })
  pub turns :
      (h : Hub) (capability : String) (b b' : Balancer) (uuid : String)
      → lookup capability h.capability_balancers ≡ some b
      → Balancer.next b ≡ some (uuid, b')
      → P h
      → P (record h { capability_balancers = insert capability b' h.capability_balancers })
  pub removes : (h : Hub) (uuid : String) → P h → P (remove_mesh_connection h uuid)
  pub signals :
      (h : Hub) (m : Map ConnectionHandler)
      → signal_each h.mesh_connections ≡ some m
      → P h
      → P (record h { mesh_connections = m })

module _ (P : Hub → Type 0) (k : Keeps P) where
  bridged_keeps :
      (h : Hub) (topic : String) (conn : Option (Option Conn))
      → P h
      → P (connect_bridge_topic h topic conn).1
  unfolding connect_bridge_topic
  bridged_keeps h topic none i = i
  bridged_keeps h topic (some none) i = i
  bridged_keeps h topic (some (some conn)) i = k.topics h conn topic i

  remove_all_keeps : (h : Hub) (cs : List ConnectionHandler) → P h → P (remove_all h cs)
  unfolding remove_all
  remove_all_keeps h [] i = i
  remove_all_keeps h (c ∷ cs) i =
      remove_all_keeps (remove_mesh_connection h c.uuid) cs (k.removes h c.uuid i)

  closes_all : (h : Hub) (conns : List Conn) → P h → P (record h { closed = h.closed ++ conns })
  unfolding close
  closes_all h [] i = subst (λ cs. P (record h { closed = cs })) (sym (append-nil h.closed)) i
  closes_all h (conn ∷ conns) i =
      subst (λ cs. P (record h { closed = cs })) (append_assoc h.closed (conn ∷ []) conns)
        (closes_all (close h conn) conns (k.closes h conn i))

  withdrawn_keeps :
      (done : String → Bool) (h h' : Hub) (ok : Bool) → withdraw done h ≡ some (ok, h') → P h → P h'
  unfolding withdraw
  withdrawn_keeps done h h' ok e i = elim (Option-cases (signal_each h.mesh_connections)) [
    | inl out ↦ absurd (ground (arith, out))
    | inr (m, e') ↦
        let same : record h { mesh_connections = m } ≡ h' = ground (arith, e, e') in
        subst P same (k.signals h m e' i)
  ]

  waits :
      (h : Hub) (uuid : String) (c : ConnectionHandler)
      → lookup uuid h.mesh_connections ≡ some c
      → P h
      → P (record h { mesh_connections = insert uuid (more_errors c) h.mesh_connections })
  waits h uuid c e i = k.replaces h uuid c (more_errors c) e refl refl i

  -- The step that is left out at `true`.
  abbrev pub Adds : Bool → Type 0
  Adds true = Unit {0}
  Adds false =
      (h : Hub) (conn : Conn) (uuid group : String) (interests : List String)
      → P h
      → P (add_connection h conn uuid group interests)

  pub step_keeps : {b : Bool} {h h' : Hub} → Adds b → HubStep b h h' → P h → P h'
  unfolding scan_failed_mesh_connections
  step_keeps adds (added h conn uuid group interests) i = adds h conn uuid group interests i
  step_keeps adds (incoming h conn x ok) i =
      incoming_keeps P h i (λ c. k.closes h c i) (λ c u g is. k.setups h c u g is i) conn x ok
  step_keeps adds (connected h uuid conn ack) i =
      connect_keeps P h i (λ c. k.closes h c i) (λ c u g is. k.setups h c u g is i) uuid conn ack
  step_keeps adds (discovered h uuid conn ack) i =
      discovered_keeps P h i (λ c. k.closes h c i) (λ c u g is. k.setups h c u g is i) uuid conn ack
  step_keeps adds (bridged h topic conn) i = bridged_keeps h topic conn i
  step_keeps adds (broadcast w h msg uuids) i =
      send_each_keeps P k.logs waits k.turns w msg uuids h i
  step_keeps adds (tunnelled n w capability msg h h' r e) i =
      tunnel_loop_keeps P k.logs waits k.turns w capability msg n h h' r e i
  step_keeps adds (received h uuid c r e) i =
      k.replaces h uuid c (read c r).0 e (interests-read c r) (uuid-read c r) i
  step_keeps adds (withdraw_sent h uuid c sent e) i =
      k.replaces h uuid c (send_withdraw c sent).1 e (interests-send_withdraw c sent)
        (uuid-send_withdraw c sent) i
  step_keeps adds (scanned h) i =
      let failed = failed_handlers h.mesh_connections in
      remove_all_keeps (record h { closed = h.closed ++ map (λ c. c.conn) failed }) failed
        (closes_all h (map (λ c. c.conn) failed) i)
  step_keeps adds (scan_closed h conn) i = k.closes h conn i
  step_keeps adds (removed h uuid) i = k.removes h uuid i
  step_keeps adds (withdrawn done h h' ok e) i = withdrawn_keeps done h h' ok e i

  pub reach_keeps : {b : Bool} {h : Hub} → Adds b → Reachable b h → P h
  reach_keeps adds (started node_uuid belongs_to interests) =
      k.begins node_uuid belongs_to interests
  reach_keeps adds (stepped r s) = step_keeps adds s (reach_keeps adds r)
