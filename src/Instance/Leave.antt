-- ===== src/Instance/Leave.antt =====
-- The whole of withdraw: the discovery is stopped first.
use grav.Common.{
  ◌≡◌, arith, String, Bool, true, false, List, Option, none, some, map, if◌then◌else◌, ◌>>=◌,
}
use grav.Options.{Plugin, Options, new_options_with_modifiers}
use grav.Options.Last.{
  Setting, modifier, last_or, mesh_of, discovery_of, new_options_with_modifiers_lem,
}
use grav.Discovery
use grav.Discovery.{Discovery, DiscoveryOpts, DiscoveryFunc}
use grav.Hub.{Hub}
use grav.Hub.Traffic.{withdraw}
use grav.Instance.Startup.{Startup, startup, start_mesh, start_discovery}

-- `h.discoveryHandler()`
abbrev discovery_handler : DiscoveryFunc
discovery_handler = 0

-- The local discovery plugin of an instance: `listens` is whether its multicast has begun to listen,
-- where it was started at all.
unfoldable pub plugin : Options → Startup → Bool → Option Discovery
unfolding Discovery.new Discovery.start
plugin options s listens = elim options.discovery [
  | none ↦ none
  | some _ ↦ elim s.discovery [
    | none ↦ some Discovery.new
    | some opts ↦ some (Discovery.start Discovery.new opts discovery_handler listens)
  ]
]

unfoldable pub stop_discovery : Option Discovery → Option (Option Discovery)
unfolding Discovery.stop
stop_discovery none = some none
stop_discovery (some d) = do d' ← Discovery.stop d; some (some d')

-- `none`: the call waits for ever, with the lock of the hub.
unfoldable pub leave : (String → Bool) → Option Discovery → Hub → Option (Bool × Hub)
unfolding stop_discovery withdraw
leave done discovery h = do _ ← stop_discovery discovery; withdraw done h

-- Whether the Stop of the plugin returns.
abbrev pub can_stop : Option Plugin → Option Plugin → Bool → Bool
can_stop none mesh listens = true
can_stop (some d) none listens = false
can_stop (some d) (some m) listens = listens

-- For an instance made with any modifiers, withdraw with the local discovery plugin does what the
-- rest of withdraw does if no plugin was given, or one was given together with a mesh transport and
-- has begun to listen; if a plugin was given without a mesh transport, or does not listen, the call
-- waits for ever.
pub leave_lem :
    (done : String → Bool) (node_uuid : String) (logger : Plugin) (ss : List Setting)
    → (listens : Bool) (h : Hub)
    → let options = new_options_with_modifiers logger (map modifier ss) in
      leave done (plugin options (startup node_uuid options) listens) h ≡ (
        if can_stop (last_or discovery_of none ss) (last_or mesh_of none ss) listens
        then withdraw done h
        else none)
unfolding leave stop_discovery plugin startup start_mesh start_discovery
leave_lem done node_uuid logger ss listens h =
    ground (arith, new_options_with_modifiers_lem logger ss)
