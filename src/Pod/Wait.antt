-- ===== src/Pod/Wait.antt =====
-- grav/pod.go and grav/receipt.go: WaitOn, WaitUntil, and what a receipt waits for.
use grav.Common.{String, Bool, true, false, List, [], ◌∷◌, Option, none, some, ite, string_discrete}
use grav.Message.{Message}
use grav.Pod.{Pod, FuncResult, ok, not_wanted, wait, set_on_func, receive}

-- The start of `WaitUntil`, and its end, when errChan has given a value or the time is over.
unfoldable pub start_wait : Pod → (Message → FuncResult) → Pod
unfolding set_on_func
start_wait p f = set_on_func (record p { waited = [] }) (some (wait f))

-- The messages that the pod takes up to the one that the closure sends something to errChan for, and
-- the messages behind it.
unfoldable pub receive_until : Pod → List Message → Pod × List Message
unfolding receive
receive_until p [] = (p, [])
receive_until p (m ∷ ms) =
    let q = receive p m in
    let later = receive_until q ms in elim q.waited [ [] ↦ later | _ ∷ _ ↦ (q, ms) ]

pub data WaitError : Type 0 where
  wait_timeout func_error : WaitError

-- What errChan gives, or ErrWaitTimeout where it gives nothing before the time is over; and the
-- message that the closure got.
unfoldable pub wait_error : List (Message × Bool) → Option WaitError
wait_error [] = some wait_timeout
wait_error ((_, true) ∷ _) = none
wait_error ((_, false) ∷ _) = some func_error

-- `msgs` are the messages that arrive before the time is over, one after another.
unfoldable pub wait_until :
    Pod → (Message → FuncResult) → List Message → Option WaitError × Pod × List Message
unfolding start_wait receive_until wait_error set_on_func
wait_until p f msgs =
    let (q, later) = receive_until (start_wait p f) msgs in
    (wait_error q.waited, set_on_func q none, later)

-- The function that `waitOnReply` waits with.
unfoldable pub is_reply : String → Message → FuncResult
is_reply uuid msg = ite (string_discrete msg.reply_to uuid) ok not_wanted

pub data ReplyResult : Type 0 where
  wait_failed : WaitError → ReplyResult
  replied : FuncResult → ReplyResult

abbrev pub ended_by : List (Message × Bool) → (Message → FuncResult) → ReplyResult
ended_by [] on_func = wait_failed wait_timeout
ended_by ((m, true) ∷ _) on_func = replied (on_func m)
ended_by ((m, false) ∷ _) on_func = wait_failed func_error

-- `uuid` is that of the receipt.
unfoldable pub wait_on_reply :
    Pod → String → (Message → FuncResult) → List Message → ReplyResult × Pod × List Message
unfolding wait_until is_reply
wait_on_reply p uuid on_func msgs =
    let (err, q, later) = wait_until p (is_reply uuid) msgs in (ended_by q.waited on_func, q, later)

pub data ReceiptError : Type 0 where
  no_receipt : ReceiptError
  reply_error : ReplyResult → ReceiptError

-- MsgReceipt.WaitUntil; `none` is the nil receipt.
unfoldable pub receipt_wait_until :
    Option String → Pod → (Message → FuncResult) → List Message → ReceiptError × Pod × List Message
unfolding wait_on_reply
receipt_wait_until none p on_func msgs = (no_receipt, p, msgs)
receipt_wait_until (some uuid) p on_func msgs =
    let (r, q, later) = wait_on_reply p uuid on_func msgs in (reply_error r, q, later)

-- MsgReceipt.OnReply: the error, and the goroutine that it starts with the messages that arrive.
unfoldable pub on_reply :
    Option String
    → Pod
    → (Message → FuncResult)
    → List Message
    → Option ReceiptError × Pod × List Message
unfolding wait_on_reply
on_reply none p on_func msgs = (some no_receipt, p, msgs)
on_reply (some uuid) p on_func msgs =
    let (_, q, later) = wait_on_reply p uuid on_func msgs in (none, q, later)

-- Pod.WaitOn and MsgReceipt.WaitOn, without a timeout: `none` is a call that still waits after `msgs`.
unfoldable pub wait_on :
    Pod → (Message → FuncResult) → List Message → Option (Option WaitError × Pod × List Message)
unfolding start_wait receive_until wait_until
wait_on p f msgs = elim (receive_until (start_wait p f) msgs).0.waited [
  | [] ↦ none
  | _ ∷ _ ↦ some (wait_until p f msgs)
]

unfoldable pub receipt_wait_on :
    Option String
    → Pod
    → (Message → FuncResult)
    → List Message
    → Option (ReceiptError × Pod × List Message)
unfolding wait_on receipt_wait_until is_reply
receipt_wait_on none p on_func msgs = some (no_receipt, p, msgs)
receipt_wait_on (some uuid) p on_func msgs = elim (wait_on p (is_reply uuid) msgs) [
  | none ↦ none
  | some _ ↦ some (receipt_wait_until (some uuid) p on_func msgs)
]
