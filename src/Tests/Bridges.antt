-- ===== src/Tests/Bridges.antt =====
-- Bridges, time limits and discovery at fixed inputs.
use grav.Common.{
  ℕ, ◌≡◌, ◌↔◌, ◌⊎◌, ◌<◌, ◌≤◌, ◌*◌, refl, arith, true, false, List, [], ◌∷◌, ◌++◌, none, some, map,
  ℕ_discrete, bytes_discrete, string_discrete, insert, lookup,
}
use grav.Message.{Bytes, marshal, unmarshal, msg_from_bytes}
use grav.Filter.{new_message_filter, filter_type, filter_uuid, allow}
use grav.Pod.{new_pod, on_type, on, set_on_func, request_replay, receive, send, report}
use grav.Bridge.{BridgeConn, calls, handle_msg, send_msg}
use grav.Nats
use grav.Nats.{next_msg, err_timeout, other_error}
use grav.Nats.Run as NatsRun
use grav.Nats.Relay.{fresh, delivered, round_trip}
use grav.Kafka
use grav.Kafka.{fetch_errors, records}
use grav.Kafka.Run as KafkaRun
use grav.Bridge.Traffic.{outgoing, sent}
use grav.Timeout.{timeout, int_limit, second, duration, after, is_positive}
use grav.Timeout.Range.{timeout_lem}
use grav.Discovery.{DiscoveryOpts, Json, payload_func, notify_func}
use grav.Discovery.Endpoint.{from_root, split, before}
use grav.Options.{new_options_with_modifiers, default_options, apply_modifiers, use_discovery}
use grav.Options.Last.{Setting, set_endpoint, set_mesh, set_discovery, modifier}
use grav.Instance.Startup.{startup, start_mesh, start_discovery, startup_lem}
use grav.Tests.Samples.{message}
use grav.Tests.Sockets.{codec, message-Encodes}

abbrev conn : Nats.Conn
conn = record { topic = "grav.default"; sub = 1 }

-- A message goes out, comes back from the server, and is sent to the bus; the bus gives it to the
-- bridge again, and after an error the topic is not read any more.
abbrev events : List NatsRun.Event
events =
    NatsRun.bus (message "m")
    ∷ NatsRun.topic_event err_timeout
    ∷ NatsRun.topic_event (next_msg "u" 0 (b'm' ∷ []))
    ∷ NatsRun.bus (message "m")
    ∷ NatsRun.topic_event other_error
    ∷ NatsRun.topic_event (next_msg "u" 0 (b'm' ∷ []))
    ∷ []

abbrev nats_end : BridgeConn
nats_end = NatsRun.run codec (λ m. true) (Nats.start codec (λ m. true) conn (new_pod false)) events

run-start_nats_example :
    (nats_end.published
      ≡ outgoing
          (Nats.publish codec (λ m. true))
          "grav.default"
          []
          (NatsRun.traffic codec (λ m. true) "grav.default" true events))
    × (nats_end.pod.bus_chan ≡ sent (NatsRun.traffic codec (λ m. true) "grav.default" true events))
run-start_nats_example = NatsRun.run-start_nats codec (λ m. true) conn false events

nats_once : (nats_end.published ≡ (b'm' ∷ []) ∷ []) × (nats_end.pod.bus_chan ≡ message "m" ∷ [])
unfolding NatsRun.run Nats.start Nats.publish Nats.decode Nats.read_topic Nats.read_round marshal
    msg_from_bytes unmarshal on_type on set_on_func request_replay new_pod new_message_filter
    filter_type filter_uuid allow calls handle_msg send_msg receive send report insert lookup
    string_discrete
nats_once = (refl, refl)

abbrev far_end : BridgeConn
far_end =
    NatsRun.run codec (λ m. true) (fresh codec (λ m. true) "grav.default" 2)
      (delivered codec (λ m. true) "u" 0
          (NatsRun.run codec (λ m. true) (fresh codec (λ m. true) "grav.default" 1)
            (map NatsRun.bus (message "m" ∷ []))).published
        ++ map NatsRun.bus (message "m" ∷ []))

round_trip_example : (far_end.pod.bus_chan ≡ message "m" ∷ []) × (far_end.published ≡ [])
round_trip_example =
    round_trip codec (λ m. true) "grav.default" "u" 1 2 0 (message "m" ∷ [])
      (record { encodes = message-Encodes; typed = refl; taken = refl }, tt)

abbrev polls : List KafkaRun.Event
polls =
    KafkaRun.fetched fetch_errors
    ∷ KafkaRun.fetched (records (record { uuid = "u"; now = 0; value = b'm' ∷ [] } ∷ []))
    ∷ KafkaRun.bus (message "m")
    ∷ []

abbrev client : Kafka.Conn
client = record { topic = "grav.default"; conn = 1 }

abbrev kafka_end : BridgeConn
kafka_end =
    KafkaRun.run codec (λ m. true) (Kafka.start codec (λ m. true) client (new_pod false)) polls

run-start_kafka_example :
    (kafka_end.published
      ≡ outgoing
          (Kafka.produce codec (λ m. true))
          "grav.default"
          []
          (KafkaRun.traffic codec (λ m. true) "grav.default" polls))
    × (kafka_end.pod.bus_chan ≡ sent (KafkaRun.traffic codec (λ m. true) "grav.default" polls))
run-start_kafka_example = KafkaRun.run-start_kafka codec (λ m. true) client false polls

-- The least number of seconds whose duration is not positive.
abbrev too_long : ℕ
too_long = 9223372037

wrapped : timeout too_long ≡ some 0
unfolding timeout duration after is_positive
wrapped = ground arith

timeout_lem_example :
    ((timeout too_long ≡ none) ↔ ((too_long ≡ 0) ⊎ (int_limit ≤ too_long)))
    × ((timeout too_long ≡ some (second * too_long)) ↔ ((0 < too_long) × (too_long ≤ 9223372036)))
timeout_lem_example = timeout_lem too_long (omega arith)

abbrev json : Json
json = record {
  marshal = λ p. some (b'p' ∷ []);
  unmarshal =
      λ bytes. some (record { uuid = "a"; port = b'8' ∷ b'0' ∷ []; path = b'/' ∷ b'm' ∷ [] });
}

abbrev address : Bytes
address = b'1' ∷ b'.' ∷ b'2' ∷ []

-- The port is set, and then the path.
abbrev settings : List Setting
settings =
    set_endpoint (b'8' ∷ b'0' ∷ []) []
    ∷ set_mesh (some 1)
    ∷ set_discovery (some 2)
    ∷ set_endpoint [] (b'/' ∷ b'm' ∷ [])
    ∷ []

-- Without a mesh transport no discovery is started.
no_mesh :
    (startup "a" (new_options_with_modifiers 0 (modifier (set_discovery (some 2)) ∷ []))).discovery
    ≡ none
unfolding startup start_mesh start_discovery new_options_with_modifiers default_options
    apply_modifiers use_discovery
no_mesh = refl

startup_lem_example :
    (opts' : DiscoveryOpts) × (found : Bytes) × ((startup "a"
        (new_options_with_modifiers 0 (map modifier settings))).discovery
      ≡ some opts')
    × (notify_func json address (payload_func json opts') ≡ some (found, "a"))
    × (split found ≡ (address, b'8' ∷ b'0' ∷ [], b'/' ∷ b'm' ∷ []))
unfolding before ℕ_discrete bytes_discrete
startup_lem_example =
    startup_lem json "a" 0 1 2 settings address refl refl
      (record { bytes = b'p' ∷ []; marshalled = refl; unmarshalled = refl }) refl refl
      (from_root (b'm' ∷ []))
