-- ===== src/Nats/Run.antt =====
-- All that a bridge to NATS goes through.
use grav.Common.{◌≡◌, refl, arith, ap, ◌∙◌, Bool, true, false, String, List, [], ◌∷◌}
use grav.Message.{Bytes, Message, Codec}
use grav.Pod.{new_pod, on_type, on, set_on_func, request_replay}
use grav.Bridge.{BridgeConn, handle_msg, send_msg}
use grav.Bridge.Traffic.{
  Traffic, from_bus, to_bus, sent, outgoing, carry, carry_lem, on_type-Listens,
}
use grav.Nats.{
  Conn, publish, start, decode, NextMsg, err_timeout, other_error, next_msg, read_round, read_topic,
}

-- A message of the bus, or what NextMsg returns.
pub data Event : Type 0 where
  bus : Message → Event
  topic_event : NextMsg → Event

module _ (codec : Codec) (pub_fn : Message → Bool) where
  unfoldable pub run : BridgeConn → List Event → BridgeConn
  unfolding handle_msg read_topic publish
  run c [] = c
  run c (bus m ∷ es) = run (handle_msg (publish codec pub_fn) c m) es
  run c (topic_event next ∷ es) = run (read_topic codec c next) es

  -- Which messages go which way: none comes from the topic once NextMsg has failed.
  abbrev pub traffic : String → Bool → List Event → List Traffic
  traffic topic reading [] = []
  traffic topic reading (bus m ∷ es) = from_bus m ∷ traffic topic reading es
  traffic topic false (topic_event next ∷ es) = traffic topic false es
  traffic topic true (topic_event err_timeout ∷ es) = traffic topic true es
  traffic topic true (topic_event other_error ∷ es) = traffic topic false es
  traffic topic true (topic_event (next_msg uuid now bytes) ∷ es) =
      to_bus (decode codec topic uuid now bytes) ∷ traffic topic true es

  carry-reading :
      (c : BridgeConn) (b : Bool) (ts : List Traffic)
      → carry (publish codec pub_fn) (record c { reading = b }) ts
        ≡ record (carry (publish codec pub_fn) c ts) { reading = b }
  unfolding carry handle_msg send_msg
  carry-reading c b [] = refl
  carry-reading c b (from_bus m ∷ ts) = carry-reading (handle_msg (publish codec pub_fn) c m) b ts
  carry-reading c b (to_bus m ∷ ts) = carry-reading (send_msg c m) b ts

  abbrev view : BridgeConn → List Bytes × List Message
  view c = (c.published, c.pod.bus_chan)

  run_lem :
      (c : BridgeConn) (r : Bool) (es : List Event)
      → c.reading ≡ r
      → view (run c es) ≡ view (carry (publish codec pub_fn) c (traffic c.topic r es))
  unfolding run read_topic read_round carry handle_msg send_msg
  run_lem c r [] e = refl
  run_lem c r (bus m ∷ es) e = run_lem (handle_msg (publish codec pub_fn) c m) r es e
  run_lem c false (topic_event next ∷ es) e = ground (arith, e, run_lem c false es e)
  run_lem c true (topic_event err_timeout ∷ es) e = ground (arith, e, run_lem c true es e)
  run_lem c true (topic_event other_error ∷ es) e = ground (
    arith,
    e,
    run_lem (record c { reading = false }) false es refl,
    carry-reading c false (traffic c.topic false es),
  )
  run_lem c true (topic_event (next_msg uuid now bytes) ∷ es) e =
      let m = decode codec c.topic uuid now bytes in
      ground (arith, e, run_lem (send_msg c m) true es e)

  -- Over any sequence of bus messages and results of NextMsg, what a bridge to NATS publishes is
  -- exactly what its function publishes of the messages of the topic's type whose UUIDs did not
  -- come from the topic before, in order; and what it sends to the bus is exactly what the values
  -- of the topic decode to, in order, up to the first error other than a timeout.
  pub run-start_nats :
      (conn : Conn) (wants : Bool) (es : List Event)
      → ((run (start codec pub_fn conn (new_pod wants)) es).published
          ≡ outgoing (publish codec pub_fn) conn.topic [] (traffic conn.topic true es))
        × ((run (start codec pub_fn conn (new_pod wants)) es).pod.bus_chan
            ≡ sent (traffic conn.topic true es))
  unfolding start on_type on set_on_func request_replay new_pod
  run-start_nats conn wants es =
      let c = start codec pub_fn conn (new_pod wants) in
      let same = run_lem c true es refl in
      let (p, b) =
        carry_lem (publish codec pub_fn) conn.topic [] c (traffic conn.topic true es)
          (on_type-Listens (publish codec pub_fn) conn.topic wants) in
      (ap (λ v. v.0) same ∙ p, ap (λ v. v.1) same ∙ b)
