-- ===== src/Bridge/Relay.antt =====
-- What one bridge publishes, sent to the bus by another one.
use grav.Common.{◌≡◌, refl, arith, ap, ◌∙◌, true, String, List, [], ◌∷◌, ◌++◌, some, All, has, map}
use grav.Message.{Bytes, Message}
use grav.Bridge.{PublishFunc}
use grav.Bridge.Traffic.{Traffic, from_bus, to_bus, sent, outgoing}

-- The UUIDs that are known to come from the topic once messages were sent to the bus.
abbrev pub seen_after : List Message → List String → List String
seen_after [] seen = seen
seen_after (m ∷ ms) seen = seen_after ms (m.uuid ∷ seen)

has-seen_after :
    (u : String) (ms : List Message) (seen : List String)
    → has u seen ≡ true
    → has u (seen_after ms seen) ≡ true
unfolding has
has-seen_after u [] seen h = h
has-seen_after u (m ∷ ms) seen h = has-seen_after u ms (m.uuid ∷ seen) (ground (arith, h))

all_seen :
    (ms : List Message) (seen : List String)
    → All (λ (m : Message). has m.uuid (seen_after ms seen) ≡ true) ms
unfolding has
all_seen [] seen = tt
all_seen (m ∷ ms) seen =
    (has-seen_after m.uuid ms (m.uuid ∷ seen) (ground arith), all_seen ms (m.uuid ∷ seen))

pub sent-to_bus :
    (ms : List Message) (ts : List Traffic) → sent (map to_bus ms ++ ts) ≡ ms ++ sent ts
sent-to_bus [] ts = refl
sent-to_bus (m ∷ ms) ts = ap (λ xs. m ∷ xs) (sent-to_bus ms ts)

pub sent-from_bus : (ms : List Message) → sent (map from_bus ms) ≡ []
sent-from_bus [] = refl
sent-from_bus (m ∷ ms) = sent-from_bus ms

module _ (publish : PublishFunc) (topic : String) where
  outgoing-to_bus :
      (ms : List Message) (ts : List Traffic) (seen : List String)
      → outgoing publish topic seen (map to_bus ms ++ ts)
        ≡ outgoing publish topic (seen_after ms seen) ts
  outgoing-to_bus [] ts seen = refl
  outgoing-to_bus (m ∷ ms) ts seen = outgoing-to_bus ms ts (m.uuid ∷ seen)

  outgoing_seen :
      (ms : List Message) (seen : List String)
      → All (λ (m : Message). has m.uuid seen ≡ true) ms
      → outgoing publish topic seen (map from_bus ms) ≡ []
  outgoing_seen [] seen h = refl
  outgoing_seen (m ∷ ms) seen h = ground (arith, h.0, outgoing_seen ms seen h.1)

  -- Messages that came from the topic are not published again.
  pub outgoing_back :
      (ms : List Message) → outgoing publish topic [] (map to_bus ms ++ map from_bus ms) ≡ []
  outgoing_back ms =
      outgoing-to_bus ms (map from_bus ms) [] ∙ outgoing_seen ms (seen_after ms []) (all_seen ms [])

  -- A message of the topic's type, and the bytes that are published of it.
  pub record Publishes (m : Message) : Type 0 where
    pub bytes : Bytes
    pub typed : m.msg_type ≡ topic
    pub published : (publish m).0 ≡ some bytes

  abbrev pub all_bytes : (ms : List Message) → All Publishes ms → List Bytes
  all_bytes [] h = []
  all_bytes (m ∷ ms) h = h.0.bytes ∷ all_bytes ms h.1

  pub outgoing-from_bus :
      (ms : List Message) (h : All Publishes ms)
      → outgoing publish topic [] (map from_bus ms) ≡ all_bytes ms h
  unfolding has
  outgoing-from_bus [] h = refl
  outgoing-from_bus (m ∷ ms) h = ground (arith, h.0.typed, h.0.published, outgoing-from_bus ms h.1)
