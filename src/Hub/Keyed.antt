-- ===== src/Hub/Keyed.antt =====
-- The keys of the table in the hubs that can be reached, and what a scan does there.
use grav.Common.{
  ◌≡◌, refl, sym, subst, ◌∙◌, arith, String, Bool, true, false, List, [], ◌∷◌, none, some, Map,
  lookup, Option-cases, inl, inr,
}
use grav.Transport.{Conn}
use grav.ConnectionHandler.{ConnectionHandler, signal}
use grav.Hub.{Hub, init_hub, close, add_connection, setup_new_connection, add_topic_connection}
use grav.Hub.Traffic.{scan_failed_mesh_connections, remove_mesh_connection, signal_each}
use grav.Hub.Table.{setup_new_connection_new, setup_new_connection_known}
use grav.Hub.Scan.{IsKeyed, survivor, scan_lem}
use grav.Hub.Keys.{IsKeyed-insert, IsKeyed-delete, uuid_of}
use grav.Hub.Reach.{Reachable, Keeps, reach_keeps}

abbrev pub HasKeys : Hub → Type 0
HasKeys h = IsKeyed h.mesh_connections

adds-HasKeys :
    (h : Hub) (conn : Conn) (uuid group : String) (interests : List String)
    → HasKeys h
    → HasKeys (add_connection h conn uuid group interests)
unfolding add_connection
adds-HasKeys h conn uuid group interests i = IsKeyed-insert uuid _ h.mesh_connections refl i

setups-HasKeys :
    (h : Hub) (conn : Conn) (uuid group : String) (interests : List String)
    → HasKeys h
    → HasKeys (setup_new_connection h conn uuid group interests)
unfolding close
setups-HasKeys h conn uuid group interests i =
    elim (Option-cases (lookup uuid h.mesh_connections)) [
      | inl out ↦
          subst HasKeys (sym (setup_new_connection_new h conn uuid group interests out))
            (adds-HasKeys h conn uuid group interests i)
      | inr (c, e) ↦
          subst HasKeys (sym (setup_new_connection_known h conn uuid group interests c e)) i
    ]

signal_each-none :
    (m m' : Map ConnectionHandler) (k : String)
    → signal_each m ≡ some m'
    → lookup k m ≡ none
    → lookup k m' ≡ none
unfolding signal_each lookup
signal_each-none [] m' k e l = ground arith
signal_each-none ((j, d) ∷ m) m' k e l = elim (Option-cases (signal_each m)) [
  | inl out ↦ ground (arith, out)
  | inr (m'', e') ↦ ground (arith, e', signal_each-none m m'' k e')
]

signal_each-IsKeyed :
    (m m' : Map ConnectionHandler) → signal_each m ≡ some m' → IsKeyed m → IsKeyed m'
unfolding signal_each
signal_each-IsKeyed [] m' e i = let same : [] ≡ m' = ground (arith, e) in subst IsKeyed same i
signal_each-IsKeyed ((j, d) ∷ m) m' e (same, new, i) = elim (Option-cases (signal_each m)) [
  | inl out ↦ absurd (ground (arith, out, e))
  | inr (m'', e') ↦
      let d' = record d { signaler = (signal d.signaler).1 } in
      let whole : ((j, d') ∷ m'') ≡ m' = ground (arith, e', e) in
      subst IsKeyed whole (same, signal_each-none m m'' j e' new, signal_each-IsKeyed m m'' e' i)
]

HasKeys-kept : Keeps HasKeys
unfolding init_hub close add_topic_connection remove_mesh_connection
HasKeys-kept = record {
  begins = λ n g is. tt;
  closes = λ h conn i. i;
  setups = setups-HasKeys;
  topics = λ h conn topic i. i;
  logs = λ h sends i. i;
  replaces = λ h uuid c c' e _ same i.
      IsKeyed-insert uuid c' h.mesh_connections (same ∙ uuid_of h.mesh_connections uuid c i e) i;
  turns = λ h capability b b' uuid l n i. i;
  removes = λ h uuid i. IsKeyed-delete uuid h.mesh_connections i;
  signals = λ h m e i. signal_each-IsKeyed h.mesh_connections m e i;
}

pub Reachable-HasKeys : {b : Bool} {h : Hub} → Reachable b h → HasKeys h
Reachable-HasKeys {b = true} r = reach_keeps HasKeys HasKeys-kept tt r
Reachable-HasKeys {b = false} r = reach_keeps HasKeys HasKeys-kept adds-HasKeys r

-- In every hub that can be reached, one round of the scan removes exactly the connections with an
-- error in ErrChan or a withdrawn peer, and changes no other.
pub lookup-scan :
    {b : Bool} (h : Hub) (u : String)
    → Reachable b h
    → lookup u (scan_failed_mesh_connections h).mesh_connections
      ≡ survivor (lookup u h.mesh_connections)
lookup-scan h u r = scan_lem h u (Reachable-HasKeys r)
