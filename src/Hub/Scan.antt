-- ===== src/Hub/Scan.antt =====
-- What a scan leaves, and the silence of connections after a withdraw.
use grav.Common.{
  dec_le, ite, ◌≡◌, ◌++◌, refl, arith, String, Bool, false, if◌then◌else◌, List, [], ◌∷◌, Option,
  none, some, Map, lookup, lookup-delete, map, has, Option-cases, inl, inr,
}
use grav.Transport.{read_failed}
use grav.ConnectionHandler.{ConnectionHandler, read, signal}
use grav.Hub.{Hub}
use grav.Hub.Traffic.{
  is_failed, failed_handlers, remove_mesh_connection, remove_all, scan_failed_mesh_connections,
  signal_each, withdraw,
}

-- Each handler stands under its own UUID, and no UUID twice.
abbrev pub IsKeyed : Map ConnectionHandler → Type 0
IsKeyed [] = Unit {0}
IsKeyed ((k, c) ∷ m) = (c.uuid ≡ k) × (lookup k m ≡ none) × IsKeyed m

-- What a scan leaves of an entry.
abbrev pub survivor : Option ConnectionHandler → Option ConnectionHandler
survivor none = none
survivor (some c) =
    ite (dec_le 1 c.err_chan) none (if c.signaler.peer_withdrawn then none else some c)

abbrev fails : Option ConnectionHandler → Bool
fails none = false
fails (some c) = is_failed c

abbrev uuids : List ConnectionHandler → List String
uuids = map (λ c. c.uuid)

lookup-remove_all :
    (h : Hub) (cs : List ConnectionHandler) (u : String)
    → lookup u (remove_all h cs).mesh_connections
      ≡ (if has u (uuids cs) then none else lookup u h.mesh_connections)
unfolding remove_all remove_mesh_connection has
lookup-remove_all h [] u = refl
lookup-remove_all h (c ∷ cs) u = ground (
  arith,
  lookup-remove_all (remove_mesh_connection h c.uuid) cs u,
  lookup-delete c.uuid u h.mesh_connections,
)

has-failed_handlers :
    (m : Map ConnectionHandler) (u : String)
    → IsKeyed m
    → has u (uuids (failed_handlers m)) ≡ fails (lookup u m)
unfolding failed_handlers has lookup
has-failed_handlers [] u k = refl
has-failed_handlers ((v, c) ∷ m) u (same, new, k) = ground (arith, has-failed_handlers m u k)

-- On a table with such keys, a scan leaves the survivors.
pub scan_lem :
    (h : Hub) (u : String)
    → IsKeyed h.mesh_connections
    → lookup u (scan_failed_mesh_connections h).mesh_connections
      ≡ survivor (lookup u h.mesh_connections)
unfolding scan_failed_mesh_connections is_failed
scan_lem h u k =
    let failed = failed_handlers h.mesh_connections in
    elim (Option-cases (lookup u h.mesh_connections)) [
      | inl out ↦ ground (
        arith,
        lookup-remove_all (record h { closed = h.closed ++ map (λ c. c.conn) failed }) failed u,
        has-failed_handlers h.mesh_connections u k,
      )
      | inr (c, e) ↦ ground (
        arith,
        lookup-remove_all (record h { closed = h.closed ++ map (λ c'. c'.conn) failed }) failed u,
        has-failed_handlers h.mesh_connections u k,
      )
    ]

signal_each-lookup :
    (m m' : Map ConnectionHandler) (u : String) (c : ConnectionHandler)
    → signal_each m ≡ some m'
    → lookup u m' ≡ some c
    → read c read_failed ≡ (c, false, none)
unfolding signal_each signal read lookup
signal_each-lookup [] m' u c e l = ground arith
signal_each-lookup ((v, d) ∷ m) m' u c e l = elim (Option-cases (signal_each m)) [
  | inl out ↦ ground (arith, out)
  | inr (m'', e') ↦ ground (arith, e', signal_each-lookup m m'' u c e')
]

-- After a withdraw that does not wait, a failed read on any connection of the hub ends its
-- goroutine without an error in ErrChan.
pub withdraw_silent :
    (done : String → Bool) (h h' : Hub) (ok : Bool) (u : String) (c : ConnectionHandler)
    → withdraw done h ≡ some (ok, h')
    → lookup u h'.mesh_connections ≡ some c
    → read c read_failed ≡ (c, false, none)
unfolding withdraw
withdraw_silent done h h' ok u c e l = elim (Option-cases (signal_each h.mesh_connections)) [
  | inl out ↦ ground (arith, out)
  | inr (m, e') ↦ ground (arith, e', signal_each-lookup h.mesh_connections m u c e')
]
