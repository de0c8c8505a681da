-- ===== src/Hub/Calls.antt =====
-- The calls of `handler.Send` that messageHandler and sendTunneledMessage make: their three ways, and
-- what holds of a hub over them.
use grav.Common.{
  ◌⊎◌, ℕ, zero, suc, ◌+◌, ◌≡◌, subst, arith, String, Bool, true, false, List, [], ◌∷◌, ◌++◌, some,
  lookup, insert, Option-cases, inl, inr,
}
use grav.Message.{Message}
use grav.Balancer
use grav.Balancer.{Balancer}
use grav.Transport.{Sending, Wire}
use grav.ConnectionHandler.{ConnectionHandler, send_ok, node_withdrawn, waiting, send}
use grav.Hub.{Hub}
use grav.Hub.Traffic.{
  send_each, Round, delivered, passed_over, held, try_tunnel, TunnelResult, tunnel_loop,
}

abbrev pub called : ConnectionHandler → Message → Bool → Sending
called c msg ok = record { conn = c.conn; msg = msg; ok = ok }

-- One goroutine more waits at ErrChan.
abbrev pub more_errors : ConnectionHandler → ConnectionHandler
more_errors c = record c { err_chan = c.err_chan + 1 }

module _ (w : Wire) (msg : Message) where
  abbrev pub Withdrawn : ConnectionHandler → List Sending → Type 0
  Withdrawn c sends =
      (c.signaler.peer_withdrawn ≡ true) × (send w c msg sends ≡ (node_withdrawn, c, sends))

  abbrev pub Taken : ConnectionHandler → List Sending → Type 0
  Taken c sends =
      (c.signaler.peer_withdrawn ≡ false)
      × (w.send_msg sends c.conn msg ≡ true)
      × (send w c msg sends ≡ (send_ok, c, sends ++ (called c msg true ∷ [])))

  abbrev pub Refused : ConnectionHandler → List Sending → Type 0
  Refused c sends =
      (c.signaler.peer_withdrawn ≡ false)
      × (w.send_msg sends c.conn msg ≡ false)
      × (send w c msg sends ≡ (waiting, more_errors c, sends ++ (called c msg false ∷ [])))

  pub send-cases :
      (c : ConnectionHandler) (sends : List Sending)
      → Withdrawn c sends ⊎ (Taken c sends ⊎ Refused c sends)
  unfolding send
  send-cases c sends = ground arith

-- The hub after a call that waits.
abbrev pub after_wait : Hub → String → ConnectionHandler → Message → Hub
after_wait h uuid c msg = record h {
  mesh_connections = insert uuid (more_errors c) h.mesh_connections;
  sends = h.sends ++ (called c msg false ∷ []);
}

module _ (P : Hub → Type 0)
    (logs : (h : Hub) (sends : List Sending) → P h → P (record h { sends = sends }))
    (waits : (h : Hub) (uuid : String) (c : ConnectionHandler)
      → lookup uuid h.mesh_connections ≡ some c
      → P h
      → P (record h { mesh_connections = insert uuid (more_errors c) h.mesh_connections }))
    (turns : (h : Hub) (capability : String) (b b' : Balancer) (uuid : String)
      → lookup capability h.capability_balancers ≡ some b
      → Balancer.next b ≡ some (uuid, b')
      → P h
      → P (record h { capability_balancers = insert capability b' h.capability_balancers })) where
  pub send_each_keeps :
      (w : Wire) (msg : Message) (uuids : List String) (h : Hub)
      → P h
      → P (send_each w msg uuids h).1
  unfolding send_each
  send_each_keeps w msg [] h i = i
  send_each_keeps w msg (uuid ∷ uuids) h i = elim (Option-cases (lookup uuid h.mesh_connections)) [
    | inl out ↦
        let same : (send_each w msg uuids h).1 ≡ (send_each w msg (uuid ∷ uuids) h).1 =
          ground (arith, out) in
        subst P same (send_each_keeps w msg uuids h i)
    | inr (c, e) ↦ elim (send-cases w msg c h.sends) [
      | inl (_, s) ↦
          let same : (send_each w msg uuids h).1 ≡ (send_each w msg (uuid ∷ uuids) h).1 =
            ground (arith, e, s) in
          subst P same (send_each_keeps w msg uuids h i)
      | inr (inl (_, _, s)) ↦
          let h' = record h { sends = h.sends ++ (called c msg true ∷ []) } in
          let same : (send_each w msg uuids h').1 ≡ (send_each w msg (uuid ∷ uuids) h).1 =
            ground (arith, e, s) in
          subst P same (send_each_keeps w msg uuids h' (logs h h'.sends i))
      | inr (inr (_, _, s)) ↦
          let same : after_wait h uuid c msg ≡ (send_each w msg (uuid ∷ uuids) h).1 =
            ground (arith, e, s) in
          let i' = waits h uuid c e i in
          subst P same (
            logs (record h { mesh_connections = insert uuid (more_errors c) h.mesh_connections })
              (h.sends ++ (called c msg false ∷ [])) i')
    ]
  ]

  module _ (w : Wire) (capability : String) (msg : Message) where
    try_tunnel_keeps :
        (h h' : Hub) (r : Round) → try_tunnel w capability msg h ≡ some (r, h') → P h → P h'
    unfolding try_tunnel
    try_tunnel_keeps h h' r e i = elim (Option-cases (lookup capability h.capability_balancers)) [
      | inl out ↦ absurd (ground (arith, out, e))
      | inr (b, l) ↦ elim (Option-cases (Balancer.next b)) [
        | inl out ↦ absurd (ground (arith, out, l, e))
        | inr ((uuid, b'), n) ↦
            let ahead = record h {
              capability_balancers = insert capability b' h.capability_balancers;
            } in
            let j : P ahead = turns h capability b b' uuid l n i in
            elim (Option-cases (lookup uuid h.mesh_connections)) [
              | inl out ↦ let same : ahead ≡ h' = ground (arith, out, l, n, e) in subst P same j
              | inr (c, l') ↦ elim (send-cases w msg c h.sends) [
                | inl (_, s) ↦
                    let same : ahead ≡ h' = ground (arith, l', l, n, e, s) in subst P same j
                | inr (inl (_, _, s)) ↦
                    let same : record ahead { sends = h.sends ++ (called c msg true ∷ []) } ≡ h' =
                      ground (arith, l', l, n, e, s) in
                    subst P same (logs ahead (h.sends ++ (called c msg true ∷ [])) j)
                | inr (inr (_, _, s)) ↦
                    let same : after_wait ahead uuid c msg ≡ h' = ground (arith, l', l, n, e, s) in
                    let j' = waits ahead uuid c l' j in
                    subst P same (
                      logs
                        (record ahead {
                          mesh_connections = insert uuid (more_errors c) h.mesh_connections;
                        })
                        (h.sends ++ (called c msg false ∷ [])) j')
              ]
            ]
      ]
    ]

    pub tunnel_loop_keeps :
        (n : ℕ) (h h' : Hub) (r : TunnelResult)
        → tunnel_loop n w capability msg h ≡ some (r, h')
        → P h
        → P h'
    unfolding tunnel_loop
    tunnel_loop_keeps zero h h' r e i = let same : h ≡ h' = ground (arith, e) in subst P same i
    tunnel_loop_keeps (suc n) h h' r e i = elim (Option-cases (try_tunnel w capability msg h)) [
      | inl out ↦ absurd (ground (arith, out, e))
      | inr ((delivered, h''), t) ↦
          let same : h'' ≡ h' = ground (arith, t, e) in
          subst P same (try_tunnel_keeps h h'' delivered t i)
      | inr ((passed_over, h''), t) ↦
          tunnel_loop_keeps n h'' h' r (ground (arith, t, e))
            (try_tunnel_keeps h h'' passed_over t i)
      | inr ((held, h''), t) ↦
          let same : h'' ≡ h' = ground (arith, t, e) in
          subst P same (try_tunnel_keeps h h'' held t i)
    ]
