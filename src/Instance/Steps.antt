-- ===== src/Instance/Steps.antt =====
-- What an instance goes through: pods that are connected, what they put into their feedback channels,
-- the hub's pod, and messages that the bus handles.
use grav.Common.{ℕ, ◌≡◌, ◌≢◌, Bool, false, String, List, [], Option, some, ◌>>=◌}
use grav.Message.{Message}
use grav.PodConnection.{Ptr, Feedback}
use grav.Pool.{ConnectionPool}
use grav.Pool.Feed.{feed}
use grav.Bus.{MessageBus, handle}
use grav.Pod.{Pod, send, receive}
use grav.Options.{Plugin, OptionsModifier}
use grav.Hub.{Hub}
use grav.Hub.Reach.{HubStep}
use grav.Instance.{Grav, connect_with_opts, new, start_hub}

-- The connection of the hub's pod is the first of its bus.
abbrev pub hub_id : Ptr
hub_id = 1

-- The hub's pod is now `pod`, and what it has put into its feedback channel is with its connection.
unfoldable pub set_hub_pod : Grav → Pod → Option Grav
unfolding feed
set_hub_pod g pod = do
  pool ← feed g.bus.pool hub_id pod.feedback_chan
  some
      (record g { bus = record g.bus { pool = pool }; hub_pod = record pod { feedback_chan = [] } })

pub data GravStep (g : Grav) : Grav → Type 0 where
  connected :
      (g' : Grav) (pod : Pod) (wants : Bool)
      → connect_with_opts g wants ≡ some (pod, g')
      → GravStep g g'
  reported :
      (pool : ConnectionPool) (a : Ptr) (feedback : List Feedback)
      → a ≢ hub_id
      → feed g.bus.pool a feedback ≡ some pool
      → GravStep g (record g { bus = record g.bus { pool = pool } })
  hub_started : (g' : Grav) → set_hub_pod g (start_hub g.hub_pod) ≡ some g' → GravStep g g'
  hub_received :
      (g' : Grav) (msg : Message) → set_hub_pod g (receive g.hub_pod msg) ≡ some g' → GravStep g g'
  hub_sent : (msg : Message) → GravStep g (record g { hub_pod = (send g.hub_pod msg).1 })
  meshed : (hub : Hub) → HubStep false g.hub hub → GravStep g (record g { hub = hub })
  handled :
      (bus : MessageBus) (fuel : ℕ) (msg : Message)
      → handle fuel g.bus msg ≡ some bus
      → GravStep g (record g { bus = bus })

pub data Reachable : Grav → Type 0 where
  started :
      (g : Grav) (node_uuid : String) (logger : Plugin) (mods : List OptionsModifier)
      → new node_uuid logger mods ≡ some g
      → Reachable g
  stepped : {g g' : Grav} → Reachable g → GravStep g g' → Reachable g'
