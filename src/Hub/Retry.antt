-- ===== src/Hub/Retry.antt =====
-- The way of the rounds of a tunnel round the balancer.
use grav.Common.{
  ℕ, zero, suc, ◌+◌, ◌-◌, ◌<◌, ◌≤◌, ◌≡◌, ◌≢◌, arith, String, true, false, List, [], ◌∷◌, some, ite,
  dec_le, string_discrete, lookup, lookup-insert, Option-cases, inl, inr, length, get_elem?,
  get_elem?_of_lt, lt_of_get,
}
use grav.Message.{Message}
use grav.Balancer.{Balancer}
use grav.Balancer.Valid.{count}
use grav.Transport.{Wire}
use grav.ConnectionHandler.{ConnectionHandler}
use grav.Hub.{Hub}
use grav.Hub.Traffic.{
  TunnelResult, tunneled, tunnel_not_established, waits_with, tunnel_loop, send_tunneled_message,
}
use grav.Hub.Table.{IsConsistent}
use grav.Hub.Calls.{send-cases}
use grav.Hub.Tunnel.{
  turned, passed, try_tunnel-unknown, try_tunnel-Withdrawn, try_tunnel-Taken, try_tunnel-Refused,
}
use grav.Hub.Rounds.{Outcome, Delivered, tunnel_loop_lem}

get_of_count :
    (u : String) (xs : List String) → 1 ≤ count u xs → (j : ℕ) × (get_elem? xs j ≡ some u)
get_of_count u [] h = ground arith
get_of_count u (x ∷ xs) h = elim (string_discrete x u) [
  | yes e ↦ (0, ground arith)
  | no ne ↦ let (j, g) = get_of_count u xs (ground arith) in (suc j, g)
]

-- How many places `j` lies ahead of `i` in a list of `n`.
abbrev pub ahead_of : ℕ → ℕ → ℕ → ℕ
ahead_of n i j = ite (dec_le i j) (j - i) (n - i + j)

module _ (w : Wire) (capability : String) (msg : Message) where
  -- While a peer that has not withdrawn stands ahead in the balancer, the rounds do not run out.
  tunnel_loop_meets :
      (n : ℕ) (h h' : Hub) (b : Balancer) (u : String) (c : ConnectionHandler) (j : ℕ)
      → lookup capability h.capability_balancers ≡ some b
      → b.index < length b.uuids
      → get_elem? b.uuids j ≡ some u
      → lookup u h.mesh_connections ≡ some c
      → c.signaler.peer_withdrawn ≡ false
      → ahead_of (length b.uuids) b.index j < n
      → tunnel_loop n w capability msg h ≢ some (tunnel_not_established, h')
  unfolding tunnel_loop
  tunnel_loop_meets zero h h' b u c j l inside g e present near run = omega arith
  tunnel_loop_meets (suc n) h h' b u c j l inside g e present near run =
      let (v, g') = get_elem?_of_lt b.uuids b.index inside in
      let at_turned = lookup-insert capability capability (turned b) h.capability_balancers in
      let later = λ (apart : b.index ≢ j).
        tunnel_loop_meets n (passed capability h b) h' (turned b) u c j (ground (arith, at_turned))
          (ground arith) g e present (ground (arith, lt_of_get b.uuids j g, apart)) in
      elim (Option-cases (lookup v h.mesh_connections)) [
        | inl out ↦
            later (λ same. ground (arith, g', g, same, e, out))
              (ground (arith, run, try_tunnel-unknown w capability msg h b v l g' out))
        | inr (d, e') ↦ elim (send-cases w msg d h.sends) [
          | inl s ↦
              later (λ same. ground (arith, g', g, same, e, e', s.0, present))
                (ground (arith, run, try_tunnel-Withdrawn w capability msg h b v l g' d e' s))
          | inr (inl s) ↦ ground (arith, run, try_tunnel-Taken w capability msg h b v l g' d e' s)
          | inr (inr s) ↦ ground (arith, run, try_tunnel-Refused w capability msg h b v l g' d e' s)
        ]
      ]

  -- Every peer that has named the capability and has not withdrawn takes the message.
  abbrev pub AllTake : Hub → Type 0
  AllTake h =
      (v : String) (d : ConnectionHandler)
      → lookup v h.mesh_connections ≡ some d
      → 1 ≤ count capability d.interests
      → d.signaler.peer_withdrawn ≡ false
      → w.send_msg h.sends d.conn msg ≡ true

  -- In a consistent hub whose balancer for the capability has at most 32 entries, where some
  -- connected peer names the capability and has not withdrawn, and the SendMsg of every such peer
  -- returns nil, sendTunneledMessage returns without an error after one call of SendMsg, which was
  -- to such a peer.
  pub send_tunneled_message_live :
      (h : Hub) (b : Balancer) (u : String) (c : ConnectionHandler)
      → IsConsistent h
      → lookup capability h.capability_balancers ≡ some b
      → length b.uuids ≤ 32
      → lookup u h.mesh_connections ≡ some c
      → 1 ≤ count capability c.interests
      → c.signaler.peer_withdrawn ≡ false
      → AllTake h
      → (h' : Hub) × (send_tunneled_message w capability msg h ≡ some (tunneled, h'))
        × Delivered w capability msg h.mesh_connections h.sends h'
  unfolding send_tunneled_message
  send_tunneled_message_live h b u c i l few e interested present takes =
      let (j, g) = get_of_count u b.uuids (ground (arith, i.balanced capability u)) in
      let inside = lt_of_get b.uuids j g in
      let (r, h', e', o) = tunnel_loop_lem w capability msg 32 h b i l (omega (arith, inside)) in
      finish r h' e' o (λ h''.
        tunnel_loop_meets 32 h h'' b u c j l (omega (arith, i.valid capability b l, inside)) g e
          present (ground (arith, inside, i.valid capability b l)))
    where
      finish :
          (r : TunnelResult) (h' : Hub)
          → tunnel_loop 32 w capability msg h ≡ some (r, h')
          → Outcome w capability msg r h.mesh_connections h.sends h'
          → ((h'' : Hub) → tunnel_loop 32 w capability msg h ≢ some (tunnel_not_established, h''))
          → (h'' : Hub) × (send_tunneled_message w capability msg h ≡ some (tunneled, h''))
            × Delivered w capability msg h.mesh_connections h.sends h''
      finish tunneled h' e' o meets = (h', ground (arith, l, e'), o)
      finish tunnel_not_established h' e' o meets = absurd (meets h' e')
      finish (waits_with k) h' e' o meets =
          let p = o.peer in
          absurd
            (ground (arith, p.answer, takes p.uuid p.handler p.connected p.interested p.present))
