-- ===== src/Bridge/Traffic.antt =====
-- What goes over a bridge connection, in either direction.
use grav.Common.{
  ◌≡◌, arith, Bool, true, false, not, String, List, [], ◌∷◌, ◌++◌, none, some, ite, if◌then◌else◌,
  has, lookup, insert, lookup-insert, string_discrete, append_assoc, append-nil,
}
use grav.Message.{Bytes, Message}
use grav.Filter.{allow, filter_uuid, filter_type, new_message_filter}
use grav.Pod.{Pod, OnFunc, new_pod, send, receive, report, on_type, on, set_on_func, request_replay}
use grav.Bridge.{BridgeConn, PublishFunc, option_list, calls, handle_msg, send_msg}

-- A message that the bus gives to the bridge, or one that the bridge sends to the bus.
pub data Traffic : Type 0 where
  from_bus to_bus : Message → Traffic

-- The messages that are sent to the bus.
abbrev pub sent : List Traffic → List Message
sent [] = []
sent (from_bus m ∷ ts) = sent ts
sent (to_bus m ∷ ts) = m ∷ sent ts

-- What reaches the broker where the messages with the UUIDs `seen` were sent to the bus before: what
-- the function publishes of the messages of the topic's type that did not come from the topic.
abbrev pub outgoing : PublishFunc → String → List String → List Traffic → List Bytes
outgoing publish topic seen [] = []
outgoing publish topic seen (from_bus m ∷ ts) =
    let rest = outgoing publish topic seen ts in
    ite (string_discrete topic m.msg_type)
      (if has m.uuid seen then rest else option_list (publish m).0 ++ rest) rest
outgoing publish topic seen (to_bus m ∷ ts) = outgoing publish topic (m.uuid ∷ seen) ts

module _ (publish : PublishFunc) where
  unfoldable pub carry : BridgeConn → List Traffic → BridgeConn
  unfolding handle_msg send_msg
  carry c [] = c
  carry c (from_bus m ∷ ts) = carry (handle_msg publish c m) ts
  carry c (to_bus m ∷ ts) = carry (send_msg c m) ts

  -- A pod that listens to the topic's type, and has sent messages with the UUIDs `seen`.
  pub record Listens (topic : String) (seen : List String) (p : Pod) : Type 0 where
    pub live : p.dead ≡ false
    pub func : p.on_func ≡ some (OnFunc.handle (λ m. (publish m).1))
    pub types : p.message_filter.type_map ≡ (topic, true) ∷ []
    pub only : p.message_filter.type_inclusive ≡ false
    pub others : p.message_filter.uuid_inclusive ≡ true
    pub sends :
        (u : String)
        → lookup u p.message_filter.uuid_map ≡ (if has u seen then some false else none)

  pub on_type-Listens :
      (topic : String) (wants : Bool)
      → Listens topic [] (on_type (new_pod wants) topic (some (λ m. (publish m).1)))
  unfolding on_type on set_on_func request_replay new_pod filter_type new_message_filter has lookup
      insert
  on_type-Listens topic wants = record {
    live = ground arith;
    func = ground arith;
    types = ground arith;
    only = ground arith;
    others = ground arith;
    sends = λ u. ground arith;
  }

  calls_lem :
      (topic : String) (seen : List String) (p : Pod) (m : Message)
      → Listens topic seen p
      → calls p m ≡ ite (string_discrete topic m.msg_type) (not (has m.uuid seen)) false
  unfolding calls allow lookup
  calls_lem topic seen p m l = ground (arith, l.func, l.types, l.only, l.others, l.sends m.uuid)

  receive-Listens :
      (topic : String) (seen : List String) (p : Pod) (m : Message)
      → Listens topic seen p
      → Listens topic seen (receive p m) × ((receive p m).bus_chan ≡ p.bus_chan)
  unfolding receive report
  receive-Listens topic seen p m l = (
    record {
      live = ground (arith, l.func, l.live);
      func = ground (arith, l.func);
      types = ground (arith, l.func, l.types);
      only = ground (arith, l.func, l.only);
      others = ground (arith, l.func, l.others);
      sends = λ u. ground (arith, l.func, l.sends u);
    },
    ground (arith, l.func),
  )

  send-Listens :
      (topic : String) (seen : List String) (p : Pod) (m : Message)
      → Listens topic seen p
      → Listens topic (m.uuid ∷ seen) (send p m).1
        × ((send p m).1.bus_chan ≡ p.bus_chan ++ (m ∷ []))
  unfolding send filter_uuid has
  send-Listens topic seen p m l = (
    record {
      live = ground (arith, l.live);
      func = ground (arith, l.live, l.func);
      types = ground (arith, l.live, l.types);
      only = ground (arith, l.live, l.only);
      others = ground (arith, l.live, l.others);
      sends = λ u.
          ground (arith, l.live, l.sends u, lookup-insert m.uuid u false p.message_filter.uuid_map);
    },
    ground (arith, l.live),
  )

  pub carry_lem :
      (topic : String) (seen : List String) (c : BridgeConn) (ts : List Traffic)
      → Listens topic seen c.pod
      → ((carry c ts).published ≡ c.published ++ outgoing publish topic seen ts)
        × ((carry c ts).pod.bus_chan ≡ c.pod.bus_chan ++ sent ts)
  unfolding carry handle_msg send_msg
  carry_lem topic seen c [] l =
      (ground (arith, append-nil c.published), ground (arith, append-nil c.pod.bus_chan))
  carry_lem topic seen c (from_bus m ∷ ts) l =
      let (l', same) = receive-Listens topic seen c.pod m l in
      let (p, b) = carry_lem topic seen (handle_msg publish c m) ts l' in
      (
        ground (
          arith,
          p,
          calls_lem topic seen c.pod m l,
          append_assoc c.published (option_list (publish m).0) (outgoing publish topic seen ts),
        ),
        ground (arith, b, same),
      )
  carry_lem topic seen c (to_bus m ∷ ts) l =
      let (l', more) = send-Listens topic seen c.pod m l in
      let (p, b) = carry_lem topic (m.uuid ∷ seen) (send_msg c m) ts l' in
      (p, ground (arith, b, more, append_assoc c.pod.bus_chan (m ∷ []) (sent ts)))
