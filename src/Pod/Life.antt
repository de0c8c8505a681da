-- ===== src/Pod/Life.antt =====
-- What a pod makes of all its messages, up to the end of its channel.
use grav.Common.{
  ◌≡◌, refl, sym, subst, Bool-cases, inl, inr, ap, arith, if◌then◌else◌, List, [], ◌∷◌, ◌++◌, map,
  none, some, append_assoc, append-nil,
}
use grav.Message.{Message}
use grav.Filter.{MessageFilter, allow}
use grav.PodConnection.{Feedback, msg_success, failed_msg}
use grav.Pod.{Pod, FuncResult, handle, is_ok, receive, report, send, start}

abbrev pub allowed : MessageFilter → List Message → List Message
allowed mf [] = []
allowed mf (m ∷ ms) = if allow mf m then m ∷ allowed mf ms else allowed mf ms

abbrev pub verdict : (Message → FuncResult) → Message → Feedback
verdict f m = if is_ok (f m) then msg_success else failed_msg m

pub receive-handle :
    (p : Pod) (f : Message → FuncResult) (m : Message)
    → p.on_func ≡ some (handle f)
    → receive p m ≡ (
        if allow p.message_filter m
        then record p { feedback_chan = p.feedback_chan ++ (verdict f m ∷ []) }
        else p)
unfolding receive report
receive-handle p f m e = ground (arith, e)

-- Where a pod has an onFunc set by On or OnType, takes any messages one after another and then
-- meets the end of its channel: each message that its filter allows, and no other, gives one
-- success or is put back as failed, as the onFunc returned, in the order of the messages; and from
-- then on Send returns the nil receipt and sends nothing.
pub start_lem :
    (p : Pod) (f : Message → FuncResult) (ms : List Message) (late : Message)
    → p.on_func ≡ some (handle f)
    → ((start p ms).feedback_chan
        ≡ p.feedback_chan ++ map (verdict f) (allowed p.message_filter ms))
      × (send (start p ms) late ≡ (none, start p ms))
unfolding start send
start_lem p f [] late e = (sym (append-nil p.feedback_chan), refl)
start_lem p f (m ∷ ms) late e =
    let grown = record p { feedback_chan = p.feedback_chan ++ (verdict f m ∷ []) } in
    let rest = map (verdict f) (allowed p.message_filter ms) in
    elim (Bool-cases (allow p.message_filter m)) [
      | inl yes' ↦
          let same : grown ≡ receive p m = ground (arith, yes', receive-handle p f m e) in
          let (told, deaf) = start_lem grown f ms late e in
          (
            ground (
              arith,
              yes',
              ap (λ q. (start q ms).feedback_chan) same,
              told,
              append_assoc p.feedback_chan (verdict f m ∷ []) rest,
            ),
            subst (λ q. send (start q ms) late ≡ (none, start q ms)) same deaf,
          )
      | inr no' ↦
          let same : p ≡ receive p m = ground (arith, no', receive-handle p f m e) in
          let (told, deaf) = start_lem p f ms late e in
          (
            ground (arith, no', ap (λ q. (start q ms).feedback_chan) same, told),
            subst (λ q. send (start q ms) late ≡ (none, start q ms)) same deaf,
          )
    ]
