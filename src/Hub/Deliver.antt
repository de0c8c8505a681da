-- ===== src/Hub/Deliver.antt =====
-- `sendTunneledMessage` as its callers see it.
use grav.Common.{
  ◌⊎◌, ℕ, suc, ◌≤◌, ◌≡◌, ◌≢◌, ◌↔◌, refl, arith, String, List, [], ◌∷◌, none, some, lookup,
  Option-cases, inl, inr, length,
}
use grav.Message.{Message}
use grav.Balancer
use grav.Balancer.{Balancer, remove}
use grav.Balancer.Valid.{count, count-remove}
use grav.Transport.{Wire}
use grav.ConnectionHandler.{ConnectionHandler}
use grav.Hub.{Hub}
use grav.Hub.Traffic.{
  TunnelResult, tunnel_not_established, try_tunnel, tunnel_loop, send_tunneled_message,
  remove_mesh_connection,
}
use grav.Hub.Table.{IsConsistent, interest, remove_mesh_connection-IsConsistent, lookup-remove_each}
use grav.Hub.Rounds.{Outcome, tunnel_loop_lem}
use grav.Hub.Consistent.{tunnel_loop-IsConsistent}

List-cases : (xs : List String) → (xs ≡ []) ⊎ (1 ≤ length xs)
List-cases [] = inl refl
List-cases (x ∷ xs) = inr (omega arith)

empty_of_count : (xs : List String) → ((v : String) → count v xs ≡ 0) → xs ≡ []
empty_of_count [] h = refl
empty_of_count (x ∷ xs) h = ground (arith, h x)

module _ (w : Wire) (capability : String) (msg : Message) where
  tunnel_loop_panics :
      (n : ℕ) (h : Hub) (b : Balancer)
      → lookup capability h.capability_balancers ≡ some b
      → b.uuids ≡ []
      → tunnel_loop (suc n) w capability msg h ≡ none
  unfolding tunnel_loop try_tunnel Balancer.next
  tunnel_loop_panics n h b l e = ground arith

  empty_panics :
      (h : Hub) (b : Balancer)
      → lookup capability h.capability_balancers ≡ some b
      → b.uuids ≡ []
      → send_tunneled_message w capability msg h ≡ none
  unfolding send_tunneled_message
  empty_panics h b l e = ground (arith, tunnel_loop_panics 31 h b l e)

  pub send_tunneled_message_lem :
      (h : Hub)
      → IsConsistent h
      → ((b : Balancer) → lookup capability h.capability_balancers ≡ some b → 1 ≤ length b.uuids)
      → (r : TunnelResult) × (h' : Hub) × (send_tunneled_message w capability msg h ≡ some (r, h'))
        × IsConsistent h'
        × Outcome w capability msg r h.mesh_connections h.sends h'
  unfolding send_tunneled_message
  send_tunneled_message_lem h i some_uuid =
      elim (Option-cases (lookup capability h.capability_balancers)) [
        | inl out ↦
            (tunnel_not_established, h, ground arith, i, record { sent = refl; table = refl })
        | inr (b, l) ↦
            let (r, h', e, o) = tunnel_loop_lem w capability msg 32 h b i l (some_uuid b l) in
            (r, h', ground (arith, e), tunnel_loop-IsConsistent 32 w capability msg h h' r e i, o)
      ]

  -- In a consistent hub, sendTunneledMessage panics exactly when the capability has a balancer and
  -- that balancer is empty.
  pub send_tunneled_message-eq-none_iff :
      (h : Hub)
      → IsConsistent h
      → (send_tunneled_message w capability msg h ≡ none)
        ↔ ((b : Balancer) × (lookup capability h.capability_balancers ≡ some b) × (b.uuids ≡ []))
  unfolding send_tunneled_message
  send_tunneled_message-eq-none_iff h i = (there, λ (b, l, e). empty_panics h b l e)
    where
      there :
          send_tunneled_message w capability msg h ≡ none
          → (b : Balancer) × (lookup capability h.capability_balancers ≡ some b) × (b.uuids ≡ [])
      there panics = elim (Option-cases (lookup capability h.capability_balancers)) [
        | inl out ↦ ground arith
        | inr (b, l) ↦ elim (List-cases b.uuids) [
          | inl e ↦ (b, l, e)
          | inr some_uuid ↦
              let (ok, h', e, _, _) =
                send_tunneled_message_lem h i (λ b' l'. ground (arith, l, l', some_uuid)) in
              ground (arith, e, panics)
        ]
      ]

  -- In a consistent hub, where the connection that is removed names a capability and no other
  -- connection does, sendTunneledMessage for that capability panics after the removal.
  pub send_tunneled_message-remove_last :
      (h : Hub) (uuid : String) (c : ConnectionHandler)
      → IsConsistent h
      → lookup uuid h.mesh_connections ≡ some c
      → 1 ≤ count capability c.interests
      → ((v : String) → v ≢ uuid → interest capability (lookup v h.mesh_connections) ≡ 0)
      → send_tunneled_message w capability msg (remove_mesh_connection h uuid) ≡ none
  unfolding remove_mesh_connection
  send_tunneled_message-remove_last h uuid c i e interested alone =
      let j = remove_mesh_connection-IsConsistent h uuid i in
      elim (Option-cases (lookup capability h.capability_balancers)) [
        | inl out ↦ ground (arith, i.balanced capability uuid)
        | inr (b, l) ↦
            empty_panics (remove_mesh_connection h uuid) (remove b uuid)
              (ground (arith, lookup-remove_each uuid capability h.capability_balancers))
              (empty_of_count (remove b uuid).uuids
                (λ v. ground (arith, count-remove b uuid v, i.balanced capability v, alone v)))
      ]
