-- ===== src/Pod/Replies.antt =====
-- Replies, echoes and the request for a replay.
use grav.Common.{
  ◌≡◌, refl, arith, String, true, false, if◌then◌else◌, List, [], ◌∷◌, ◌++◌, Option, none, some,
  ite, string_discrete, lookup,
}
use grav.Message.{Message}
use grav.Filter.{new_message_filter, allow}
use grav.Filter.Allow.{allow-filter_uuid}
use grav.PodConnection.{msg_success, failed_msg}
use grav.Pod.{
  FuncResult, wait, Pod, send, request_replay, set_on_func, on, wait_result, report, is_ok, receive,
}
use grav.Pod.Wait.{
  start_wait, receive_until, wait_until, wait_on_reply, is_reply, ReplyResult, wait_failed,
  wait_timeout, replied, ended_by,
}

-- The first reply to a message, and the messages behind it.
abbrev pub find_reply : String → List Message → Option (Message × List Message)
find_reply uuid [] = none
find_reply uuid (m ∷ ms) = ite (string_discrete m.reply_to uuid) (some (m, ms)) (find_reply uuid ms)

abbrev pub answer : Option (Message × List Message) → (Message → FuncResult) → ReplyResult
answer none on_func = wait_failed wait_timeout
answer (some (m, _)) on_func = replied (on_func m)

abbrev pub behind : Option (Message × List Message) → List Message
behind none = []
behind (some (_, ms)) = ms

allow-new : (msg : Message) → allow new_message_filter msg ≡ true
unfolding allow new_message_filter lookup
allow-new msg = refl

receive_until_lem :
    (p : Pod) (uuid : String) (on_func : Message → FuncResult) (msgs : List Message)
    → p.on_func ≡ some (wait (is_reply uuid))
    → p.message_filter ≡ new_message_filter
    → p.waited ≡ []
    → (ended_by (receive_until p msgs).0.waited on_func ≡ answer (find_reply uuid msgs) on_func)
      × ((receive_until p msgs).1 ≡ behind (find_reply uuid msgs))
unfolding receive_until receive report wait_result is_reply
receive_until_lem p uuid on_func [] f new w = ground arith
receive_until_lem p uuid on_func (m ∷ ms) f new w =
    ground (arith, allow-new m, receive_until_lem (receive p m) uuid on_func ms)

-- Where messages arrive one after another before the time is over, waitOnReply takes them up to the
-- first reply to the receipt's UUID, passes that reply to onFunc and returns its result, or
-- ErrWaitTimeout if there is no reply; the messages behind the reply are not taken, and the pod is
-- left with no onFunc and a new filter.
pub wait_on_reply_lem :
    (p : Pod) (uuid : String) (on_func : Message → FuncResult) (msgs : List Message)
    → ((wait_on_reply p uuid on_func msgs).0 ≡ answer (find_reply uuid msgs) on_func)
      × ((wait_on_reply p uuid on_func msgs).1.on_func ≡ none)
      × ((wait_on_reply p uuid on_func msgs).1.message_filter ≡ new_message_filter)
      × ((wait_on_reply p uuid on_func msgs).2 ≡ behind (find_reply uuid msgs))
unfolding wait_on_reply wait_until start_wait set_on_func request_replay
wait_on_reply_lem p uuid on_func msgs =
    ground (arith, receive_until_lem (start_wait p (is_reply uuid)) uuid on_func msgs)

-- After a live pod has sent a message, a message with the same UUID that comes from the bus changes
-- nothing: the onFunc is not called for it, and no feedback is given.
pub receive-send :
    (p : Pod) (msg echo : Message)
    → p.dead ≡ false
    → echo.uuid ≡ msg.uuid
    → receive (send p msg).1 echo ≡ (send p msg).1
unfolding receive send
receive-send p msg echo alive same =
    ground (arith, allow-filter_uuid p.message_filter msg.uuid echo)

-- Where the owner sets an onFunc after sending a message, that message does reach the onFunc when
-- it comes back: a success or the failed message goes to the feedback channel.
pub receive-on-send :
    (p : Pod) (msg : Message) (f : Message → FuncResult)
    → (receive (on (send p msg).1 (some f)) msg).feedback_chan
      ≡ (on (send p msg).1 (some f)).feedback_chan
        ++ ((if is_ok (f msg) then msg_success else failed_msg msg) ∷ [])
unfolding receive on set_on_func request_replay report
receive-on-send p msg f = ground (arith, allow-new msg)
