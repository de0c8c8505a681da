-- ===== src/Tests/Pods.antt =====
-- A pod that wants a replay.
use grav.Common.{
  ◌≡◌, refl, true, false, List, [], ◌∷◌, ◌++◌, lookup, map, none, some, string_discrete,
}
use grav.Message.{Message}
use grav.Filter.{new_message_filter, allow}
use grav.Pod.{
  start, FuncResult, ok, new_pod, send, on, receive, set_on_func, request_replay, report,
  wait_result,
}
use grav.Pod.Wait.{wait_on_reply, replied, receive_until, wait_until, start_wait, is_reply}
use grav.Pod.Replies.{answer, find_reply, behind, wait_on_reply_lem}
use grav.Pod.Once.{send_msg, set_on, await, end, apply_all, replays, replays-apply_all}
use grav.Pod.Life.{verdict, allowed, start_lem}
use grav.Tests.Samples.{message}

abbrev accept : Message → FuncResult
accept msg = ok

abbrev reply : Message
reply = record (message "r") { reply_to = "m" }

-- A reply, with a message before it and one behind it.
abbrev arrivals : List Message
arrivals = message "x" ∷ reply ∷ message "y" ∷ []

replied_run : (wait_on_reply (new_pod true) "m" accept arrivals).0 ≡ replied ok
unfolding wait_on_reply wait_until start_wait set_on_func request_replay receive_until receive
    report wait_result is_reply new_pod string_discrete new_message_filter allow lookup
replied_run = refl

wait_on_reply_lem_example :
    ((wait_on_reply (new_pod true) "m" accept arrivals).0 ≡ answer (find_reply "m" arrivals) accept)
    × ((wait_on_reply (new_pod true) "m" accept arrivals).1.on_func ≡ none)
    × ((wait_on_reply (new_pod true) "m" accept arrivals).1.message_filter ≡ new_message_filter)
    × ((wait_on_reply (new_pod true) "m" accept arrivals).2 ≡ behind (find_reply "m" arrivals))
wait_on_reply_lem_example = wait_on_reply_lem (new_pod true) "m" accept arrivals

replays-apply_all_example :
    replays
      (apply_all
        (send_msg (message "m") ∷ set_on (some accept) ∷ await accept arrivals ∷ end ∷ [])
        (new_pod true)).feedback_chan
    ≡ 1
replays-apply_all_example =
    replays-apply_all true
      (send_msg (message "m") ∷ set_on (some accept) ∷ await accept arrivals ∷ end ∷ [])

start_lem_example :
    ((start (on (new_pod false) (some accept)) arrivals).feedback_chan
      ≡ (on (new_pod false) (some accept)).feedback_chan
        ++ map
            (verdict accept)
            (allowed (on (new_pod false) (some accept)).message_filter arrivals))
    × (send (start (on (new_pod false) (some accept)) arrivals) (message "late")
        ≡ (none, start (on (new_pod false) (some accept)) arrivals))
unfolding on set_on_func request_replay new_pod
start_lem_example =
    start_lem (on (new_pod false) (some accept)) accept arrivals (message "late") refl
