-- ===== src/Hub/Rounds.antt =====
-- The loop of `sendTunneledMessage`: what it has sent when it ends, or when it waits.
use grav.Common.{
  ℕ, zero, suc, ◌≤◌, ◌≡◌, refl, arith, String, Bool, true, false, List, [], ◌∷◌, ◌++◌, some, lookup,
  insert, lookup-insert, Option-cases, inl, inr, length, get_elem?, get_elem?_of_lt, Map,
}
use grav.Message.{Message}
use grav.Balancer.{Balancer}
use grav.Balancer.Valid.{count}
use grav.Transport.{Sending, Wire}
use grav.ConnectionHandler.{ConnectionHandler}
use grav.Hub.{Hub}
use grav.Hub.Traffic.{TunnelResult, tunneled, tunnel_not_established, waits_with, tunnel_loop}
use grav.Hub.Table.{IsConsistent, next-IsConsistent}
use grav.Hub.Calls.{called, more_errors, send-cases}
use grav.Hub.Tunnel.{
  turned, passed, next-turned, try_tunnel-unknown, try_tunnel-Withdrawn, try_tunnel-Taken,
  try_tunnel-Refused,
}

pub count_of_get :
    (u : String) (xs : List String) (i : ℕ) → get_elem? xs i ≡ some u → 1 ≤ count u xs
count_of_get u [] i g = ground arith
count_of_get u (x ∷ xs) zero g = ground arith
count_of_get u (x ∷ xs) (suc i) g = ground (arith, count_of_get u xs i g)

module _ (w : Wire) (capability : String) (msg : Message) where
  -- A peer in the table that has named the capability and has not withdrawn, and what SendMsg
  -- returns for it after the calls `sends`.
  pub record Peer (m : Map ConnectionHandler) (sends : List Sending) (ok : Bool) : Type 0 where
    pub uuid : String
    pub handler : ConnectionHandler
    pub connected : lookup uuid m ≡ some handler
    pub interested : 1 ≤ count capability handler.interests
    pub present : handler.signaler.peer_withdrawn ≡ false
    pub answer : w.send_msg sends handler.conn msg ≡ ok

  -- One call of SendMsg, which returned nil.
  pub record Delivered (m : Map ConnectionHandler) (sends : List Sending) (h' : Hub) : Type 0 where
    pub peer : Peer m sends true
    pub sent : h'.sends ≡ sends ++ (called peer.handler msg true ∷ [])
    pub table : h'.mesh_connections ≡ m

  -- One call of SendMsg, which failed, and the wait at ErrChan.
  pub record Waits (m : Map ConnectionHandler) (sends : List Sending) (h' : Hub) : Type 0 where
    pub peer : Peer m sends false
    pub sent : h'.sends ≡ sends ++ (called peer.handler msg false ∷ [])
    pub table : h'.mesh_connections ≡ insert peer.uuid (more_errors peer.handler) m

  -- No call of SendMsg.
  pub record Untouched (m : Map ConnectionHandler) (sends : List Sending) (h' : Hub) : Type 0 where
    pub sent : h'.sends ≡ sends
    pub table : h'.mesh_connections ≡ m

  abbrev pub Outcome : TunnelResult → Map ConnectionHandler → List Sending → Hub → Type 0
  Outcome tunneled = Delivered
  Outcome tunnel_not_established = Untouched
  Outcome (waits_with k) = Waits

  -- The loop with fuel `n` comes from `h` to an end or to a wait.
  abbrev pub Ends : ℕ → Hub → Type 0
  Ends n h =
      (r : TunnelResult) × (h' : Hub) × (tunnel_loop n w capability msg h ≡ some (r, h'))
      × Outcome r h.mesh_connections h.sends h'

  pub tunnel_loop_lem :
      (n : ℕ) (h : Hub) (b : Balancer)
      → IsConsistent h
      → lookup capability h.capability_balancers ≡ some b
      → 1 ≤ length b.uuids
      → Ends n h
  unfolding tunnel_loop
  tunnel_loop_lem zero h b i l some_uuid =
      (tunnel_not_established, h, refl, record { sent = refl; table = refl })
  tunnel_loop_lem (suc n) h b i l some_uuid =
      let (uuid, g) = get_elem?_of_lt b.uuids b.index (omega (arith, i.valid capability b l)) in
      let at_turned = lookup-insert capability capability (turned b) h.capability_balancers in
      let i' = next-IsConsistent h capability b (turned b) uuid l (next-turned b uuid g) i in
      let (r, h', e', o) =
        tunnel_loop_lem n (passed capability h b) (turned b) i' (ground (arith, at_turned))
          some_uuid in
      elim (Option-cases (lookup uuid h.mesh_connections)) [
        | inl out ↦
            (r, h', ground (arith, e', try_tunnel-unknown w capability msg h b uuid l g out), o)
        | inr (c, e) ↦
            let named : 1 ≤ count capability c.interests =
              ground
                (arith, e, i.balanced capability uuid, l, count_of_get uuid b.uuids b.index g) in
            elim (send-cases w msg c h.sends) [
              | inl s ↦ (
                r,
                h',
                ground (arith, e', try_tunnel-Withdrawn w capability msg h b uuid l g c e s),
                o,
              )
              | inr (inl s) ↦ (
                tunneled,
                record (passed capability h b) { sends = h.sends ++ (called c msg true ∷ []) },
                ground (arith, try_tunnel-Taken w capability msg h b uuid l g c e s),
                record {
                  peer = record {
                    uuid = uuid;
                    handler = c;
                    connected = e;
                    interested = named;
                    present = s.0;
                    answer = s.1;
                  };
                  sent = refl;
                  table = refl;
                },
              )
              | inr (inr s) ↦ (
                waits_with n,
                record (passed capability h b) {
                  mesh_connections = insert uuid (more_errors c) h.mesh_connections;
                  sends = h.sends ++ (called c msg false ∷ []);
                },
                ground (arith, try_tunnel-Refused w capability msg h b uuid l g c e s),
                record {
                  peer = record {
                    uuid = uuid;
                    handler = c;
                    connected = e;
                    interested = named;
                    present = s.0;
                    answer = s.1;
                  };
                  sent = refl;
                  table = refl;
                },
              )
            ]
      ]
