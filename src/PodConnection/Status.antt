-- ===== src/PodConnection/Status.antt =====
-- `checkStatus` against what the feedback channel holds.
use grav.Common.{
  ◌<◌, refl, ap, ◌≡◌, Bool, true, false, ◌||◌, List, [], ◌∷◌, ◌++◌, Option, none, some, arith, ite,
  dec_le, length, append_assoc, append-nil,
}
use grav.Message.{Message}
use grav.PodConnection.{
  Feedback, msg_success, msg_replay, msg_disconnect, failed_msg, StatusError, failed_message,
  failed_message_max, ConnStatus, PodConnection, high_water_mark, no_status, drain, check_status,
}

-- The messages that come back as failed, in order.
abbrev pub failures : List Feedback → List Message
failures [] = []
failures (failed_msg msg ∷ fs) = msg ∷ failures fs
failures (msg_success ∷ fs) = failures fs
failures (msg_replay ∷ fs) = failures fs
failures (msg_disconnect ∷ fs) = failures fs

abbrev pub is_success : Feedback → Bool
is_success msg_success = true
is_success _ = false

abbrev pub is_replay : Feedback → Bool
is_replay msg_replay = true
is_replay _ = false

abbrev is_disconnect : Feedback → Bool
is_disconnect msg_disconnect = true
is_disconnect _ = false

abbrev pub any {ℓ} : {A : Type ℓ} → (A → Bool) → List A → Bool
any f [] = false
any f (x ∷ xs) = f x || any f xs

-- The error before the high-water mark is looked at.
abbrev pub failure_error : List Message → Option StatusError → Option StatusError
failure_error [] e = e
failure_error (m ∷ ms) e = some failed_message

-- The status that the contents of the channel and of the failed queue call for.
abbrev pub status_of : List Feedback → List Message → ConnStatus
status_of fs failed = record {
  had_success = any is_success fs;
  wants_replay = any is_replay fs;
  wants_disconnect = any is_disconnect fs;
  error =
      ite (dec_le high_water_mark (length (failed ++ failures fs))) (some failed_message_max)
        (failure_error (failures fs) none);
}

drain_lem :
    (fs : List Feedback) (s : ConnStatus) (failed : List Message)
    → drain fs s failed ≡ (
      record {
        had_success = s.had_success || any is_success fs;
        wants_replay = s.wants_replay || any is_replay fs;
        wants_disconnect = s.wants_disconnect || any is_disconnect fs;
        error = failure_error (failures fs) s.error;
      },
      failed ++ failures fs,
    )
unfolding drain
drain_lem [] s failed = ground (arith, append-nil failed)
drain_lem (failed_msg m ∷ fs) s failed = ground (
  arith,
  drain_lem fs (record s { error = some failed_message }) (failed ++ (m ∷ [])),
  append_assoc failed (m ∷ []) (failures fs),
)
drain_lem (msg_success ∷ fs) s failed =
    ground (arith, drain_lem fs (record s { had_success = true }) failed)
drain_lem (msg_replay ∷ fs) s failed =
    ground (arith, drain_lem fs (record s { wants_replay = true }) failed)
drain_lem (msg_disconnect ∷ fs) s failed =
    ground (arith, drain_lem fs (record s { wants_disconnect = true }) failed)

-- checkStatus empties the feedback channel, appends the failed messages to the failed queue in
-- order, and reports a success, a replay wish and a disconnect wish exactly when the channel held
-- one; its error is the maximum error if the queue has reached the high-water mark, else the
-- failed-message error if the channel held a failed message, else none.
pub check_status_lem :
    (p : PodConnection)
    → check_status p ≡ (
      status_of p.feedback_chan p.failed,
      record p { feedback_chan = []; failed = p.failed ++ failures p.feedback_chan },
    )
unfolding check_status
check_status_lem p = ground (arith, drain_lem p.feedback_chan no_status p.failed)

any_last {ℓ} :
    {A : Type ℓ} (f : A → Bool) (xs : List A) (x : A) → f x ≡ true → any f (xs ++ (x ∷ [])) ≡ true
any_last f [] x e = ground (arith, e)
any_last f (y ∷ xs) x e = ground (arith, any_last f xs x e)

failures_last : (fs : List Feedback) → failures (fs ++ (msg_disconnect ∷ [])) ≡ failures fs
failures_last [] = refl
failures_last (failed_msg m ∷ fs) = ap (λ ms. m ∷ ms) (failures_last fs)
failures_last (msg_success ∷ fs) = failures_last fs
failures_last (msg_replay ∷ fs) = failures_last fs
failures_last (msg_disconnect ∷ fs) = failures_last fs

-- A wish to disconnect, behind feedback without a failure and with few messages in the failed queue.
pub status_of-disconnect :
    (fs : List Feedback) (failed : List Message)
    → failures fs ≡ []
    → length failed < high_water_mark
    → let s = status_of (fs ++ (msg_disconnect ∷ [])) failed in
      (s.wants_disconnect ≡ true) × (s.error ≡ none)
status_of-disconnect fs failed e few = (
  any_last is_disconnect fs msg_disconnect refl,
  ground (arith, failures_last fs, e, append-nil failed, few),
)
