-- ===== src/Pod.antt =====
-- grav/pod.go: the owner's side of a connection. An onFunc is known by what it is
-- set by: a handler of the owner, which is an argument, or the closure that waits for a message. The
-- busChan and the feedbackChan are the lists of what the pod puts into them.
pub mod Wait
pub mod Replies
pub mod Once
pub mod Waiting
pub mod Life
pub mod Leaving
use grav.Common.{
  String, Bool, true, false, if◌then◌else◌, not, ◌&&◌, List, [], ◌∷◌, ◌++◌, Option, none, some, ite,
  string_discrete,
}
use grav.Message.{Message, set_reply_to}
use grav.Filter.{MessageFilter, new_message_filter, allow, filter_uuid, filter_type}
use grav.PodConnection.{Feedback, msg_success, msg_replay, msg_disconnect, failed_msg}

-- What an onFunc returns: nil, ErrMsgNotWanted, or another error.
pub data FuncResult : Type 0 where
  ok not_wanted failed : FuncResult

-- The onFunc of `On`, and the closure of `WaitUntil` around the function of the owner.
pub data OnFunc : Type 0 where
  handle wait : (Message → FuncResult) → OnFunc

-- `replayed`: replayOnce is done. `waited` holds what the closure of `WaitUntil` sends to errChan, true
-- for nil, with the message that it got.
pub record Pod : Type 0 where
  pub on_func : Option OnFunc
  pub bus_chan : List Message
  pub feedback_chan : List Feedback
  pub message_filter : MessageFilter
  pub wants_replay : Bool
  pub replayed : Bool
  pub dead : Bool
  pub waited : List (Message × Bool)

unfoldable pub new_pod : Bool → Pod
unfolding new_message_filter
new_pod wants_replay = record {
  on_func = none;
  bus_chan = [];
  feedback_chan = [];
  message_filter = new_message_filter;
  wants_replay = wants_replay;
  replayed = false;
  dead = false;
  waited = [];
}

-- The UUID of the receipt, or `none` for the nil receipt.
unfoldable pub send : Pod → Message → Option String × Pod
unfolding filter_uuid
send p msg = if p.dead then (none, p) else (
  some msg.uuid,
  record p {
    message_filter = filter_uuid p.message_filter msg.uuid false;
    bus_chan = p.bus_chan ++ (msg ∷ []);
  },
)

unfoldable pub reply_to : Pod → Message → Message → Option String × Pod
unfolding send set_reply_to
reply_to p in_reply_to msg = send p (set_reply_to msg in_reply_to.uuid)

-- The end of `setOnFunc`: `replayOnce.Do`.
unfoldable pub request_replay : Pod → Pod
request_replay p = if p.replayed then p else record p {
  replayed = true;
  feedback_chan = if p.wants_replay then p.feedback_chan ++ (msg_replay ∷ []) else p.feedback_chan;
}

unfoldable pub set_on_func : Pod → Option OnFunc → Pod
unfolding new_message_filter request_replay
set_on_func p none = record p { message_filter = new_message_filter; on_func = none }
set_on_func p (some f) =
    request_replay (record p { message_filter = new_message_filter; on_func = some f })

unfoldable pub on : Pod → Option (Message → FuncResult) → Pod
unfolding set_on_func
on p none = set_on_func p none
on p (some f) = set_on_func p (some (handle f))

unfoldable pub on_type : Pod → String → Option (Message → FuncResult) → Pod
unfolding on filter_type
on_type p msg_type f =
    let set = on p f in
    record set {
      message_filter = record (filter_type set.message_filter msg_type true) {
        type_inclusive = false;
      };
    }

unfoldable pub disconnect : Pod → Pod
disconnect p = record p { dead = true; feedback_chan = p.feedback_chan ++ (msg_disconnect ∷ []) }

-- The closure of `WaitUntil` on the result of the owner's function: what it sends to errChan.
unfoldable pub wait_result : Message → FuncResult → List (Message × Bool)
wait_result msg ok = (msg, true) ∷ []
wait_result msg not_wanted = []
wait_result msg failed = (msg, false) ∷ []

-- What the pod makes of a call of onFunc that returned nil, or an error.
unfoldable pub report : Message → Bool → Pod → Pod
report msg true p = record p { feedback_chan = p.feedback_chan ++ (msg_success ∷ []) }
report msg false p = record p { feedback_chan = p.feedback_chan ++ (failed_msg msg ∷ []) }

abbrev pub is_ok : FuncResult → Bool
is_ok ok = true
is_ok not_wanted = false
is_ok failed = false

-- One message of messageChan, in the goroutine of `start`.
unfoldable pub receive : Pod → Message → Pod
unfolding report wait_result
receive p msg = elim p.on_func [
  | none ↦ p
  | some (handle f) ↦ if allow p.message_filter msg then report msg (is_ok (f msg)) p else p
  | some (wait f) ↦
      if allow p.message_filter msg
      then report msg true (record p { waited = p.waited ++ wait_result msg (f msg) })
      else p
]

-- The loop of `start` over the messages of messageChan, up to where the bus has closed it. The goroutine
-- of each message runs before the next one begins.
unfoldable pub start : Pod → List Message → Pod
unfolding receive
start p [] = record p { dead = true }
start p (m ∷ ms) = start (receive p m) ms
