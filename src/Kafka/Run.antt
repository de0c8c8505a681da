-- ===== src/Kafka/Run.antt =====
-- All that a bridge to Kafka goes through.
use grav.Common.{◌≡◌, refl, arith, ap, ◌∙◌, Bool, String, List, [], ◌∷◌, ◌++◌, map}
use grav.Message.{Message, Codec}
use grav.Pod.{new_pod, on_type, on, set_on_func, request_replay}
use grav.Bridge.{BridgeConn, handle_msg, send_msg}
use grav.Bridge.Traffic.{
  Traffic, from_bus, to_bus, sent, outgoing, carry, carry_lem, on_type-Listens,
}
use grav.Kafka.{
  Conn, produce, start, decode, Fetched, Fetches, fetch_errors, records, send_records, poll,
}

-- A message of the bus, or what PollFetches returns.
pub data Event : Type 0 where
  bus : Message → Event
  fetched : Fetches → Event

module _ (codec : Codec) (produced : Message → Bool) where
  unfoldable pub run : BridgeConn → List Event → BridgeConn
  unfolding handle_msg poll produce
  run c [] = c
  run c (bus m ∷ es) = run (handle_msg (produce codec produced) c m) es
  run c (fetched f ∷ es) = run (poll codec c f) es

  -- Which messages go which way: all records that were fetched, in their order.
  abbrev pub traffic : String → List Event → List Traffic
  traffic topic [] = []
  traffic topic (bus m ∷ es) = from_bus m ∷ traffic topic es
  traffic topic (fetched fetch_errors ∷ es) = traffic topic es
  traffic topic (fetched (records rs) ∷ es) =
      map (λ r. to_bus (decode codec topic r)) rs ++ traffic topic es

  carry-send_records :
      (c : BridgeConn) (rs : List Fetched) (ts : List Traffic)
      → carry (produce codec produced) c (map (λ r. to_bus (decode codec c.topic r)) rs ++ ts)
        ≡ carry (produce codec produced) (send_records codec c rs) ts
  unfolding carry send_records send_msg
  carry-send_records c [] ts = refl
  carry-send_records c (r ∷ rs) ts = carry-send_records (send_msg c (decode codec c.topic r)) rs ts

  topic-send_records :
      (c : BridgeConn) (rs : List Fetched) → (send_records codec c rs).topic ≡ c.topic
  unfolding send_records send_msg
  topic-send_records c [] = refl
  topic-send_records c (r ∷ rs) = topic-send_records (send_msg c (decode codec c.topic r)) rs

  run_lem :
      (c : BridgeConn) (es : List Event)
      → run c es ≡ carry (produce codec produced) c (traffic c.topic es)
  unfolding run poll carry handle_msg
  run_lem c [] = refl
  run_lem c (bus m ∷ es) = run_lem (handle_msg (produce codec produced) c m) es
  run_lem c (fetched fetch_errors ∷ es) = run_lem c es
  run_lem c (fetched (records rs) ∷ es) = ground (
    arith,
    run_lem (send_records codec c rs) es,
    topic-send_records c rs,
    carry-send_records c rs (traffic c.topic es),
  )

  -- Over any sequence of bus messages and fetches, what a bridge to Kafka produces is exactly what
  -- its function produces of the messages of the topic's type whose UUIDs did not come from the
  -- topic before, in order; and what it sends to the bus is exactly what the records of all fetches
  -- without errors decode to, in order.
  pub run-start_kafka :
      (conn : Conn) (wants : Bool) (es : List Event)
      → ((run (start codec produced conn (new_pod wants)) es).published
          ≡ outgoing (produce codec produced) conn.topic [] (traffic conn.topic es))
        × ((run (start codec produced conn (new_pod wants)) es).pod.bus_chan
            ≡ sent (traffic conn.topic es))
  unfolding start on_type on set_on_func request_replay new_pod
  run-start_kafka conn wants es =
      let c = start codec produced conn (new_pod wants) in
      let (p, b) =
        carry_lem (produce codec produced) conn.topic [] c (traffic conn.topic es)
          (on_type-Listens (produce codec produced) conn.topic wants) in
      let same = run_lem c es in
      (
        ap (λ (x : BridgeConn). x.published) same ∙ p,
        ap (λ (x : BridgeConn). x.pod.bus_chan) same ∙ b,
      )
