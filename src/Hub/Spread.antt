-- ===== src/Hub/Spread.antt =====
-- A message of the bus that messageHandler sends to the mesh.
use grav.Common.{
  ◌≡◌, ◌⊎◌, refl, arith, String, Bool, true, false, if◌then◌else◌, List, [], ◌∷◌, ◌++◌, Option,
  none, some, inl, inr, Map, lookup, keys, append_assoc, append-nil,
}
use grav.Message.{Message}
use grav.Transport.{Sending, Wire}
use grav.ConnectionHandler.{ConnectionHandler}
use grav.Hub.{Hub}
use grav.Hub.Traffic.{send_each, message_handler}
use grav.Hub.Scan.{IsKeyed}
use grav.Hub.Calls.{called, after_wait, send-cases}
use grav.Hub.Reach.{Reachable}
use grav.Hub.Keyed.{Reachable-HasKeys}

-- Each handler of `part` is found in the table under its UUID.
abbrev Found : Map ConnectionHandler → Map ConnectionHandler → Type 0
Found m [] = Unit {0}
Found m ((uuid, c) ∷ part) = (lookup uuid m ≡ some c) × Found m part

Found-cons :
    (uuid : String) (c : ConnectionHandler) (m part : Map ConnectionHandler)
    → lookup uuid part ≡ none
    → Found m part
    → Found ((uuid, c) ∷ m) part
unfolding lookup
Found-cons uuid c m [] new f = tt
Found-cons uuid c m ((v, d) ∷ part) new f =
    (ground (arith, new, f.0), Found-cons uuid c m part (ground (arith, new)) f.1)

Found-self : (m : Map ConnectionHandler) → IsKeyed m → Found m m
unfolding lookup
Found-self [] k = tt
Found-self ((uuid, c) ∷ m) (same, new, k) =
    (ground arith, Found-cons uuid c m m new (Found-self m k))

-- A call of SendMsg that returned nil for each handler whose peer has not withdrawn.
abbrev pub calls_to : Message → Map ConnectionHandler → List Sending
calls_to msg [] = []
calls_to msg ((uuid, c) ∷ m) =
    let rest = calls_to msg m in
    if c.signaler.peer_withdrawn then rest else called c msg true ∷ rest

module _ (w : Wire) (msg : Message) where
  -- The call returns, and has sent to all; or it waits behind a call of SendMsg that failed.
  pub record Held (h : Hub) (part : Map ConnectionHandler) (r : Option (List String) × Hub)
      : Type 0 where
    pub before : Map ConnectionHandler
    pub after : Map ConnectionHandler
    pub uuid : String
    pub handler : ConnectionHandler
    pub split : part ≡ before ++ ((uuid, handler) ∷ after)
    pub present : handler.signaler.peer_withdrawn ≡ false
    pub refused : w.send_msg (h.sends ++ calls_to msg before) handler.conn msg ≡ false
    pub run : r ≡ (
      some (keys after),
      after_wait (record h { sends = h.sends ++ calls_to msg before }) uuid handler msg,
    )

  abbrev pub Spread : Hub → Map ConnectionHandler → Option (List String) × Hub → Type 0
  Spread h part r = (r ≡ (none, record h { sends = h.sends ++ calls_to msg part })) ⊎ Held h part r

  send_each_lem :
      (part : Map ConnectionHandler) (h : Hub)
      → Found h.mesh_connections part
      → Spread h part (send_each w msg (keys part) h)
  unfolding send_each
  send_each_lem [] h f = inl (ground (arith, append-nil h.sends))
  send_each_lem ((uuid, c) ∷ part) h (e, f) = elim (send-cases w msg c h.sends) [
    | inl s ↦ elim (send_each_lem part h f) [
      | inl run ↦ inl (ground (arith, e, s, run))
      | inr k ↦
          let same : calls_to msg ((uuid, c) ∷ k.before) ≡ calls_to msg k.before =
            ground (arith, s) in
          inr (record {
            before = (uuid, c) ∷ k.before;
            after = k.after;
            uuid = k.uuid;
            handler = k.handler;
            split = ground (arith, k.split);
            present = k.present;
            refused = ground (arith, same, k.refused);
            run = ground (arith, e, s, k.run, same);
          })
    ]
    | inr (inl s) ↦
        elim (send_each_lem part (record h { sends = h.sends ++ (called c msg true ∷ []) }) f) [
          | inl run ↦ inl (
              ground (
                arith,
                e,
                s,
                run,
                append_assoc h.sends (called c msg true ∷ []) (calls_to msg part),
              ))
          | inr k ↦
              let same : h.sends ++ calls_to msg ((uuid, c) ∷ k.before)
                  ≡ (h.sends ++ (called c msg true ∷ [])) ++ calls_to msg k.before =
                ground (
                  arith,
                  s.0,
                  append_assoc h.sends (called c msg true ∷ []) (calls_to msg k.before),
                ) in
              inr (record {
                before = (uuid, c) ∷ k.before;
                after = k.after;
                uuid = k.uuid;
                handler = k.handler;
                split = ground (arith, k.split);
                present = k.present;
                refused = ground (arith, same, k.refused);
                run = ground (arith, e, s, k.run, same);
              })
        ]
    | inr (inr s) ↦ inr (record {
      before = [];
      after = part;
      uuid = uuid;
      handler = c;
      split = refl;
      present = s.0;
      refused = ground (arith, s.1, append-nil h.sends);
      run = ground (arith, e, s, append-nil h.sends);
    })
  ]

  -- In every hub that can be reached, a call of messageHandler comes to one of two ends. Either it
  -- returns, has called SendMsg once for each connection whose peer has not withdrawn, in the order
  -- of the range, all with success, and has changed nothing else. Or it waits at the ErrChan of the
  -- first such connection whose SendMsg failed, after those calls for the connections in front of
  -- it, and has not yet called SendMsg for any connection behind it.
  pub message_handler_lem :
      {b : Bool} (h : Hub) → Reachable b h → Spread h h.mesh_connections (message_handler w h msg)
  unfolding message_handler
  message_handler_lem h r =
      send_each_lem h.mesh_connections h (Found-self h.mesh_connections (Reachable-HasKeys r))
