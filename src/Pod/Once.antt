-- ===== src/Pod/Once.antt =====
-- The request for a replay, over all that an owner can do with a pod.
use grav.Common.{
  ◌≡◌, ℕ, ◌+◌, refl, arith, String, Bool, true, false, ◌&&◌, ◌||◌, if◌then◌else◌, List, [], ◌∷◌,
  ◌++◌, Option, none, some,
}
use grav.Message.{Message}
use grav.PodConnection.{Feedback, msg_success, msg_replay, msg_disconnect, failed_msg}
use grav.Pod.{
  FuncResult, Pod, OnFunc, handle, wait, new_pod, send, request_replay, set_on_func, on, on_type,
  disconnect, report, receive,
}
use grav.Pod.Wait.{start_wait, receive_until, wait_until}

-- What an owner and the bus do with a pod.
pub data PodOp : Type 0 where
  send_msg receive_msg : Message → PodOp
  set_on : Option (Message → FuncResult) → PodOp
  set_on_type : String → Option (Message → FuncResult) → PodOp
  await : (Message → FuncResult) → List Message → PodOp
  end : PodOp

abbrev pub apply : PodOp → Pod → Pod
apply (send_msg msg) p = (send p msg).1
apply (receive_msg msg) p = receive p msg
apply (set_on f) p = on p f
apply (set_on_type t f) p = on_type p t f
apply (await f msgs) p = (wait_until p f msgs).1
apply end p = disconnect p

abbrev pub apply_all : List PodOp → Pod → Pod
apply_all [] p = p
apply_all (o ∷ os) p = apply_all os (apply o p)

-- How many replays a feedback channel was asked for.
abbrev pub replays : List Feedback → ℕ
replays [] = 0
replays (msg_replay ∷ fs) = 1 + replays fs
replays (msg_success ∷ fs) = replays fs
replays (msg_disconnect ∷ fs) = replays fs
replays (failed_msg msg ∷ fs) = replays fs

replays-append : (fs gs : List Feedback) → replays (fs ++ gs) ≡ replays fs + replays gs
replays-append [] gs = ground arith
replays-append (msg_replay ∷ fs) gs = ground (arith, replays-append fs gs)
replays-append (msg_success ∷ fs) gs = replays-append fs gs
replays-append (msg_disconnect ∷ fs) gs = replays-append fs gs
replays-append (failed_msg msg ∷ fs) gs = replays-append fs gs

-- One request if the pod wants a replay and has had an onFunc, else none.
abbrev pub AsksOnce : Pod → Type 0
AsksOnce p = replays p.feedback_chan ≡ (if p.wants_replay && p.replayed then 1 else 0)

set_on_func-AsksOnce : (p : Pod) (f : Option OnFunc) → AsksOnce p → AsksOnce (set_on_func p f)
unfolding set_on_func request_replay
set_on_func-AsksOnce p none a = a
set_on_func-AsksOnce p (some f) a =
    ground (arith, a, replays-append p.feedback_chan (msg_replay ∷ []))

on-AsksOnce : (p : Pod) (f : Option (Message → FuncResult)) → AsksOnce p → AsksOnce (on p f)
unfolding on
on-AsksOnce p none a = set_on_func-AsksOnce p none a
on-AsksOnce p (some f) a = set_on_func-AsksOnce p (some (handle f)) a

report-AsksOnce : (msg : Message) (b : Bool) (p : Pod) → AsksOnce p → AsksOnce (report msg b p)
unfolding report
report-AsksOnce msg true p a = ground (arith, a, replays-append p.feedback_chan (msg_success ∷ []))
report-AsksOnce msg false p a =
    ground (arith, a, replays-append p.feedback_chan (failed_msg msg ∷ []))

receive-AsksOnce : (p : Pod) (msg : Message) → AsksOnce p → AsksOnce (receive p msg)
unfolding receive report
receive-AsksOnce p msg a = ground (
  arith,
  a,
  replays-append p.feedback_chan (msg_success ∷ []),
  replays-append p.feedback_chan (failed_msg msg ∷ []),
)

receive_until-AsksOnce :
    (p : Pod) (msgs : List Message) → AsksOnce p → AsksOnce (receive_until p msgs).0
unfolding receive_until
receive_until-AsksOnce p [] a = a
receive_until-AsksOnce p (m ∷ ms) a = ground (
  arith,
  receive-AsksOnce p m a,
  receive_until-AsksOnce (receive p m) ms (receive-AsksOnce p m a),
)

apply-AsksOnce : (o : PodOp) (p : Pod) → AsksOnce p → AsksOnce (apply o p)
unfolding send on_type wait_until start_wait disconnect
apply-AsksOnce (send_msg msg) p a = ground (arith, a)
apply-AsksOnce (receive_msg msg) p a = receive-AsksOnce p msg a
apply-AsksOnce (set_on f) p a = on-AsksOnce p f a
apply-AsksOnce (set_on_type t f) p a = on-AsksOnce p f a
apply-AsksOnce (await f msgs) p a =
    receive_until-AsksOnce (start_wait p f) msgs
      (set_on_func-AsksOnce (record p { waited = [] }) (some (wait f)) a)
apply-AsksOnce end p a = ground (arith, a, replays-append p.feedback_chan (msg_disconnect ∷ []))

apply_all-AsksOnce : (os : List PodOp) (p : Pod) → AsksOnce p → AsksOnce (apply_all os p)
apply_all-AsksOnce [] p a = a
apply_all-AsksOnce (o ∷ os) p a = apply_all-AsksOnce os (apply o p) (apply-AsksOnce o p a)

-- Whether an operation sets an onFunc other than nil.
abbrev pub sets_func : PodOp → Bool
sets_func (set_on (some f)) = true
sets_func (set_on_type t (some f)) = true
sets_func (await f msgs) = true
sets_func _ = false

abbrev pub any_sets : List PodOp → Bool
any_sets [] = false
any_sets (o ∷ os) = sets_func o || any_sets os

-- What the replay depends on: whether the pod wants it, and whether it has had an onFunc.
abbrev flags : Pod → Bool × Bool
flags p = (p.wants_replay, p.replayed)

flags-receive : (p : Pod) (msg : Message) → flags (receive p msg) ≡ flags p
unfolding receive report
flags-receive p msg = ground arith

flags-receive_until : (p : Pod) (msgs : List Message) → flags (receive_until p msgs).0 ≡ flags p
unfolding receive_until
flags-receive_until p [] = refl
flags-receive_until p (m ∷ ms) =
    ground (arith, flags-receive p m, flags-receive_until (receive p m) ms)

flags-apply :
    (o : PodOp) (p : Pod) → flags (apply o p) ≡ (p.wants_replay, p.replayed || sets_func o)
unfolding send on_type on wait_until start_wait set_on_func request_replay disconnect
flags-apply (send_msg msg) p = ground arith
flags-apply (receive_msg msg) p = ground (arith, flags-receive p msg)
flags-apply (set_on none) p = ground arith
flags-apply (set_on (some f)) p = ground arith
flags-apply (set_on_type t none) p = ground arith
flags-apply (set_on_type t (some f)) p = ground arith
flags-apply (await f msgs) p = ground (arith, flags-receive_until (start_wait p f) msgs)
flags-apply end p = ground arith

flags-apply_all :
    (os : List PodOp) (p : Pod)
    → flags (apply_all os p) ≡ (p.wants_replay, p.replayed || any_sets os)
flags-apply_all [] p = ground arith
flags-apply_all (o ∷ os) p = ground (arith, flags-apply o p, flags-apply_all os (apply o p))

-- Over any sequence of sends, received messages, On, OnType, waits and Disconnect on a new pod, the
-- pod asks the bus for a replay once if it wants one and some onFunc other than nil was set, and
-- else never.
pub replays-apply_all :
    (wants : Bool) (os : List PodOp)
    → replays (apply_all os (new_pod wants)).feedback_chan ≡ (if wants && any_sets os then 1 else 0)
unfolding new_pod
replays-apply_all wants os = ground (
  arith,
  flags-apply_all os (new_pod wants),
  apply_all-AsksOnce os (new_pod wants) (ground arith),
)
