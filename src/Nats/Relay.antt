-- ===== src/Nats/Relay.antt =====
-- Messages that go from one node to another over a topic of NATS.
use grav.Common.{
  ℕ, ◌≡◌, refl, arith, ap, ◌∙◌, Bool, true, false, String, List, [], ◌∷◌, ◌++◌, All, map,
  append-nil,
}
use grav.Message.{Bytes, Message, Codec, Encodes, marshal, msg_from_bytes, unmarshal}
use grav.Pod.{new_pod}
use grav.Bridge.{BridgeConn}
use grav.Bridge.Traffic.{from_bus, to_bus, sent, outgoing}
use grav.Bridge.Relay.{
  Publishes, all_bytes, outgoing-from_bus, outgoing_back, sent-to_bus, sent-from_bus,
}
use grav.Nats.{publish, start, decode, next_msg}
use grav.Nats.Run.{Event, bus, topic_event, run, traffic, run-start_nats}

module _ (codec : Codec) (pub_fn : Message → Bool) where
  -- A message of the topic's type that JSON gives back, and that the server takes.
  pub record Passes (topic : String) (m : Message) : Type 0 where
    pub encodes : Encodes codec m
    pub typed : m.msg_type ≡ topic
    pub taken : pub_fn m ≡ true

  publishes :
      (topic : String) (m : Message) → Passes topic m → Publishes (publish codec pub_fn) topic m
  unfolding publish marshal
  publishes topic m p = record {
    bytes = p.encodes.bytes;
    typed = p.typed;
    published = ground (arith, p.encodes.marshalled, p.taken);
  }

  all_publish :
      (topic : String) (ms : List Message)
      → All (Passes topic) ms
      → All (Publishes (publish codec pub_fn) topic) ms
  all_publish topic [] h = tt
  all_publish topic (m ∷ ms) h = (publishes topic m h.0, all_publish topic ms h.1)

  traffic-bus :
      (topic : String) (reading : Bool) (ms : List Message)
      → traffic codec pub_fn topic reading (map bus ms) ≡ map from_bus ms
  traffic-bus topic false [] = refl
  traffic-bus topic true [] = refl
  traffic-bus topic false (m ∷ ms) = ap (λ ts. from_bus m ∷ ts) (traffic-bus topic false ms)
  traffic-bus topic true (m ∷ ms) = ap (λ ts. from_bus m ∷ ts) (traffic-bus topic true ms)

  -- NextMsg returns these bytes, one after another.
  abbrev pub delivered : String → ℕ → List Bytes → List Event
  delivered uuid now = map (λ bytes. topic_event (next_msg uuid now bytes))

  traffic-delivered :
      (topic uuid : String) (now : ℕ) (ms : List Message) (es : List Event)
      → (h : All (Passes topic) ms)
      → traffic codec pub_fn topic true (
          delivered uuid now (all_bytes (publish codec pub_fn) topic ms (all_publish topic ms h))
          ++ es)
        ≡ map to_bus ms ++ traffic codec pub_fn topic true es
  unfolding all_publish publishes decode msg_from_bytes unmarshal
  traffic-delivered topic uuid now [] es h = refl
  traffic-delivered topic uuid now (m ∷ ms) es h =
      ground (arith, h.0.encodes.unmarshalled, traffic-delivered topic uuid now ms es h.1)

  -- The connection as Start leaves it, with a pod that Connect has made.
  abbrev pub fresh : String → ℕ → BridgeConn
  fresh topic sub = start codec pub_fn (record { topic = topic; sub = sub }) (new_pod false)

  -- Messages of the topic's type that JSON gives back and the server takes, given to one bridge by
  -- its bus and delivered to another one, are sent to the bus of the other one unchanged and in
  -- order, and if that bus gives them to its bridge the bridge publishes nothing.
  pub round_trip :
      (topic uuid : String) (sub sub' now : ℕ) (ms : List Message)
      → All (Passes topic) ms
      → let near = fresh topic sub in
        let far = fresh topic sub' in
        let back =
          run codec pub_fn far
            (delivered uuid now (run codec pub_fn near (map bus ms)).published ++ map bus ms) in
        (back.pod.bus_chan ≡ ms) × (back.published ≡ [])
  round_trip topic uuid sub sub' now ms h =
      let f = publish codec pub_fn in
      let out =
        run-start_nats codec pub_fn (record { topic = topic; sub = sub }) false (map bus ms) in
      let bytes = all_bytes f topic ms (all_publish topic ms h) in
      let given : (run codec pub_fn (fresh topic sub) (map bus ms)).published ≡ bytes =
        out.0
        ∙ ap (outgoing f topic []) (traffic-bus topic true ms)
        ∙ outgoing-from_bus f topic ms (all_publish topic ms h) in
      let ways : traffic codec pub_fn topic true (
            delivered uuid now (run codec pub_fn (fresh topic sub) (map bus ms)).published
            ++ map bus ms)
          ≡ map to_bus ms ++ map from_bus ms =
        ap (λ bs. traffic codec pub_fn topic true (delivered uuid now bs ++ map bus ms)) given
        ∙ traffic-delivered topic uuid now ms (map bus ms) h
        ∙ ap (λ ts. map to_bus ms ++ ts) (traffic-bus topic true ms) in
      let (p, b) =
        run-start_nats codec pub_fn (record { topic = topic; sub = sub' }) false
          (delivered uuid now (run codec pub_fn (fresh topic sub) (map bus ms)).published
            ++ map bus ms) in
      (
        b
            ∙ ap sent ways
            ∙ sent-to_bus ms (map from_bus ms)
            ∙ ap (λ xs. ms ++ xs) (sent-from_bus ms)
            ∙ append-nil ms,
        p ∙ ap (outgoing f topic []) ways ∙ outgoing_back f topic ms,
      )
