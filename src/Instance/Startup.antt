-- ===== src/Instance/Startup.antt =====
-- What initHub starts, and what a node advertises of its options.
use grav.Common.{◌≡◌, arith, String, Bool, List, Option, none, some, map, is_some}
use grav.Message.{Bytes}
use grav.Options.{Plugin, Options, new_options_with_modifiers, default_port, default_uri}
use grav.Options.Last.{
  Setting, modifier, last_or, mesh_of, discovery_of, port_of, uri_of,
  new_options_with_modifiers_lem,
}
use grav.Discovery.{DiscoveryOpts, Json, payload_func, notify_func}
use grav.Discovery.Endpoint.{Advertises, Lacks, IsPath, split, notify_func-payload_func}

-- The fields of `MeshOptions` that initHub sets, without the logger.
pub record MeshOptions : Type 0 where
  pub node_uuid : String
  pub port : Bytes
  pub uri : Bytes

-- The calls of the goroutines that initHub starts: Setup of the mesh transport, Start of the discovery,
-- and Setup of the bridge.
pub record Startup : Type 0 where
  pub mesh : Option MeshOptions
  pub discovery : Option DiscoveryOpts
  pub bridge : Bool

unfoldable pub start_mesh : String → Options → Option MeshOptions
start_mesh node_uuid options = elim options.mesh_transport [
  | none ↦ none
  | some _ ↦ some (record { node_uuid = node_uuid; port = options.port; uri = options.uri })
]

unfoldable pub start_discovery : Option MeshOptions → Option Plugin → Option DiscoveryOpts
start_discovery none discovery = none
start_discovery (some mesh) none = none
start_discovery (some mesh) (some _) =
    some
      (record { node_uuid = mesh.node_uuid; transport_port = mesh.port; transport_uri = mesh.uri })

unfoldable pub startup : String → Options → Startup
unfolding start_mesh start_discovery
startup node_uuid options =
    let mesh = start_mesh node_uuid options in
    record {
      mesh = mesh;
      discovery = start_discovery mesh options.discovery;
      bridge = is_some options.bridge_transport;
    }

-- The options of discovery where both plugins were given.
abbrev pub advertised : String → List Setting → DiscoveryOpts
advertised node_uuid ss = record {
  node_uuid = node_uuid;
  transport_port = last_or port_of default_port ss;
  transport_uri = last_or uri_of default_uri ss;
}

-- Where modifiers give an instance a mesh transport and a discovery plugin, JSON gives back what it
-- advertises, the port has no slash and the URI is empty or begins with one: the discovery is
-- started, and a peer that is told of the instance at an address without a colon finds it under its
-- UUID and an endpoint that splits into that address and the port and the URI that were given last,
-- or their defaults.
pub startup_lem :
    (json : Json) (node_uuid : String) (logger mesh discovery : Plugin) (ss : List Setting)
    → (address : Bytes) → last_or mesh_of none ss ≡ some mesh
    → last_or discovery_of none ss ≡ some discovery
    → Advertises json (advertised node_uuid ss)
    → Lacks b':' address
    → Lacks b'/' (last_or port_of default_port ss)
    → IsPath (last_or uri_of default_uri ss)
    → (opts : DiscoveryOpts) × (found : Bytes) × ((startup node_uuid
          (new_options_with_modifiers logger (map modifier ss))).discovery
        ≡ some opts)
      × (notify_func json address (payload_func json opts) ≡ some (found, node_uuid))
      × (split found ≡ (address, last_or port_of default_port ss, last_or uri_of default_uri ss))
unfolding startup
startup_lem json node_uuid logger mesh discovery ss address m d a l l' q =
    let opts = advertised node_uuid ss in
    let (found, told, apart, dialled) = notify_func-payload_func json opts address a l l' q in
    (opts, found, ground (arith, new_options_with_modifiers_lem logger ss, m, d), told, apart)
