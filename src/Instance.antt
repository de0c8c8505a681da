-- ===== src/Instance.antt =====
-- grav/grav.go: an instance, which is a bus and a hub that has a pod of its own. The UUID of the node is
-- an argument. The hub's pod is kept with it; the other pods are with their owners.
pub mod Steps
pub mod Ring
pub mod HubPod
pub mod Running
pub mod Total
pub mod Relay
pub mod Startup
pub mod Leave
use grav.Common.{Bool, true, false, String, List, [], Option, none, some, ◌>>=◌}
use grav.Message.{Message}
use grav.Bus.{MessageBus, new_message_bus, add_pod}
use grav.Pod.{Pod, FuncResult, ok, new_pod, on}
use grav.Options.{Plugin, Options, OptionsModifier, new_options_with_modifiers}
use grav.Transport.{Conn, TransportHandshakeAck, Wire}
use grav.Hub
use grav.Hub.{Hub, ConnectError, init_hub}
use grav.Hub.Traffic

pub record Grav : Type 0 where
  pub node_uuid : String
  pub belongs_to : String
  pub interests : List String
  pub bus : MessageBus
  pub hub : Hub
  pub hub_pod : Pod

-- What `newPod` and `addPod` do: the pod, and the bus with its connection.
unfoldable pub connect_bus : MessageBus → Bool → Option (Pod × MessageBus)
unfolding add_pod
connect_bus bus wants_replay = do bus' ← add_pod bus []; some (new_pod wants_replay, bus')

unfoldable pub connect_with_opts : Grav → Bool → Option (Pod × Grav)
unfolding connect_bus
connect_with_opts g wants_replay = do
  (pod, bus) ← connect_bus g.bus wants_replay
  some (pod, record g { bus = bus })

unfoldable pub connect : Grav → Option (Pod × Grav)
unfolding connect_with_opts
connect g = connect_with_opts g false

unfoldable pub connect_with_replay : Grav → Option (Pod × Grav)
unfolding connect_with_opts
connect_with_replay g = connect_with_opts g true

-- `New`: the hub is made with a pod that `Connect` gives it.
unfoldable pub new : String → Plugin → List OptionsModifier → Option Grav
unfolding connect_bus new_message_bus init_hub
new node_uuid logger mods =
    let options = new_options_with_modifiers logger mods in
    do
      (pod, bus) ← connect_bus new_message_bus false
      some (record {
        node_uuid = node_uuid;
        belongs_to = options.belongs_to;
        interests = options.interests;
        bus = bus;
        hub = init_hub node_uuid options.belongs_to options.interests;
        hub_pod = pod;
      })

-- `messageHandler` returns nil for every message.
abbrev pub hub_func : Message → FuncResult
hub_func msg = ok

-- `h.pod.On(h.messageHandler)`, once the mesh transport is set up.
unfoldable pub start_hub : Pod → Pod
unfolding on
start_hub pod = on pod (some hub_func)

-- The methods that pass a call on to the hub.
unfoldable pub connect_endpoint :
    Grav → Option (Option Conn) → Option TransportHandshakeAck → Option ConnectError × Grav
unfolding Hub.connect_endpoint
connect_endpoint g connected ack =
    let (err, hub) = Hub.connect_endpoint g.hub "" connected ack in (err, record g { hub = hub })

unfoldable pub connect_bridge_topic :
    Grav → String → Option (Option Conn) → Option ConnectError × Grav
unfolding Hub.connect_bridge_topic
connect_bridge_topic g topic connected =
    let (err, hub) = Hub.connect_bridge_topic g.hub topic connected in (err, record g { hub = hub })

unfoldable pub tunnel : Wire → Grav → String → Message → Option (Traffic.TunnelResult × Grav)
unfolding Traffic.send_tunneled_message
tunnel w g capability msg = do
  (result, hub) ← Traffic.send_tunneled_message w capability msg g.hub
  some (result, record g { hub = hub })

unfoldable pub withdraw : (String → Bool) → Grav → Option (Bool × Grav)
unfolding Traffic.withdraw
withdraw done g = do (fine, hub) ← Traffic.withdraw done g.hub; some (fine, record g { hub = hub })

unfoldable pub stop : Wire → Grav → Bool × Grav
unfolding Traffic.stop
stop w g = let (fine, hub) = Traffic.stop w g.hub in (fine, record g { hub = hub })
