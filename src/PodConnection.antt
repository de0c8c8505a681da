-- ===== src/PodConnection.antt =====
-- grav/podconnection.go: the bus's side of a pod. A pointer is an address of the heap of Pool.antt.
pub mod Status
pub mod Delivery
use grav.Common.{
  ℕ, Bool, true, false, if◌then◌else◌, List, [], ◌∷◌, ◌++◌, map, Option, none, some, ite, dec_le,
  length,
}
use grav.Message.{Message}

abbrev pub Ptr : Type 0
Ptr = ℕ

abbrev pub high_water_mark : ℕ
high_water_mark = 64

-- What a pod sends on its feedbackChan: one of the three messages that are told apart by identity,
-- or a message that its onFunc failed on.
pub data Feedback : Type 0 where
  msg_success msg_replay msg_disconnect : Feedback
  failed_msg : Message → Feedback

pub data StatusError : Type 0 where
  failed_message failed_message_max : StatusError

-- `sends` holds the messages of the goroutines that `send` has started and that have not run yet.
-- The message in a send is nil (`none`) where the replayed buffer gives nil.
pub record PodConnection : Type 0 where
  pub id : ℕ
  pub next : Option Ptr
  pub sends : List (Option Message)
  pub message_chan : List (Option Message)
  pub closed : Bool
  pub feedback_chan : List Feedback
  pub failed : List Message
  pub connected : Bool

pub record ConnStatus : Type 0 where
  pub had_success : Bool
  pub wants_replay : Bool
  pub wants_disconnect : Bool
  pub error : Option StatusError

-- `feedback` is what the pod's feedbackChan holds.
unfoldable pub new_pod_connection : ℕ → List Feedback → PodConnection
new_pod_connection id feedback = record {
  id = id;
  next = none;
  sends = [];
  message_chan = [];
  closed = false;
  feedback_chan = feedback;
  failed = [];
  connected = true;
}

-- Starts the goroutine.
unfoldable pub send : PodConnection → Option Message → PodConnection
send p msg = record p { sends = p.sends ++ (msg ∷ []) }

-- The goroutine of a message, once its turn has come and the channel has room. `none`: a send on a
-- closed channel panics.
unfoldable pub run_send : Option Message → PodConnection → Option PodConnection
run_send msg p =
    if p.connected
    then (if p.closed
        then none
        else some (record p { message_chan = p.message_chan ++ (msg ∷ []) }))
    else some p

unfoldable pub send_all : PodConnection → List (Option Message) → PodConnection
unfolding send
send_all p [] = p
send_all p (msg ∷ msgs) = send_all (send p msg) msgs

-- The loop of `checkStatus`: one message of the channel after another, until it is empty.
unfoldable pub drain : List Feedback → ConnStatus → List Message → ConnStatus × List Message
drain [] status failed = (status, failed)
drain (msg_success ∷ fs) status failed = drain fs (record status { had_success = true }) failed
drain (msg_replay ∷ fs) status failed = drain fs (record status { wants_replay = true }) failed
drain (msg_disconnect ∷ fs) status failed =
    drain fs (record status { wants_disconnect = true }) failed
drain (failed_msg msg ∷ fs) status failed =
    drain fs (record status { error = some failed_message }) (failed ++ (msg ∷ []))

abbrev pub no_status : ConnStatus
no_status = record {
  had_success = false;
  wants_replay = false;
  wants_disconnect = false;
  error = none;
}

unfoldable pub check_status : PodConnection → ConnStatus × PodConnection
unfolding drain
check_status p =
    let (status, failed) = drain p.feedback_chan no_status p.failed in
    (
      ite (dec_le high_water_mark (length failed))
          (record status { error = some failed_message_max }) status,
      record p { feedback_chan = []; failed = failed },
    )

-- Closing a channel that is closed panics.
unfoldable pub disconnect : PodConnection → Option PodConnection
disconnect p = if p.closed then none else some (record p { connected = false; closed = true })

unfoldable pub flush_failed : PodConnection → PodConnection
unfolding send_all
flush_failed p = record (send_all p (map some p.failed)) { failed = [] }
