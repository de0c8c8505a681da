-- ===== src/Discovery.antt =====
-- discovery/local/discovery.go: nodes that advertise themselves in the local network. The multicast is
-- other code, which calls payloadFunc and notifyFunc; JSON is a parameter.
pub mod Endpoint
use grav.Common.{
  ℕ, Bool, true, false, String, List, [], ◌∷◌, ◌++◌, Option, none, some, if◌then◌else◌,
}
use grav.Message.{Bytes}

-- The fields of `DiscoveryOpts` that the plugin reads.
pub record DiscoveryOpts : Type 0 where
  pub node_uuid : String
  pub transport_port : Bytes
  pub transport_uri : Bytes

pub record Payload : Type 0 where
  pub uuid : String
  pub port : Bytes
  pub path : Bytes

-- encoding/json at `payload`.
pub record Json : Type 0 where
  pub marshal : Payload → Option Bytes
  pub unmarshal : Bytes → Option Payload

-- A function that is called with what was found is known by a number.
abbrev pub DiscoveryFunc : Type 0
DiscoveryFunc = ℕ

-- `opts`: none before Start. `listening`: Discover receives from stopChan.
pub record Discovery : Type 0 where
  pub opts : Option DiscoveryOpts
  pub listening : Bool
  pub discovery_func : Option DiscoveryFunc

unfoldable pub new : Discovery
new = record { opts = none; listening = false; discovery_func = none }

-- `Start`, up to the call of Discover: `starts` is whether it goes on to listen.
unfoldable pub start : Discovery → DiscoveryOpts → DiscoveryFunc → Bool → Discovery
start d opts func starts = record {
  opts = some opts;
  listening = starts;
  discovery_func = some func;
}

-- It may be called before Start, which overwrites it, or after.
unfoldable pub use_discovery_func : Discovery → DiscoveryFunc → Discovery
use_discovery_func d func = record d { discovery_func = some func }

-- The bytes of the payload, or nil where the error of Marshal is dropped.
unfoldable pub payload_func : Json → DiscoveryOpts → Bytes
payload_func json opts =
    elim (json.marshal
      (record { uuid = opts.node_uuid; port = opts.transport_port; path = opts.transport_uri })) [
        | none ↦ []
        | some bytes ↦ bytes
      ]

-- `fmt.Sprintf("%s:%s%s", peer.Address, payload.Port, payload.Path)`
unfoldable pub endpoint : Bytes → Payload → Bytes
endpoint address p = address ++ (b':' ∷ (p.port ++ p.path))

-- The endpoint and the UUID that discoveryFunc is called with, if it is.
unfoldable pub notify_func : Json → Bytes → Bytes → Option (Bytes × String)
unfolding endpoint
notify_func json address payload = elim (json.unmarshal payload) [
  | none ↦ none
  | some p ↦ some (endpoint address p, p.uuid)
]

-- `none`: the send to stopChan waits.
unfoldable pub stop : Discovery → Option Discovery
stop d = if d.listening then some (record d { listening = false }) else none
