-- ===== src/Pool/Lost.antt =====
-- A pod's requests beside a failed message.
use grav.Common.{
  ◌≡◌, ◌<◌, List, [], ◌∷◌, ◌++◌, Option, none, some, arith, length, map, subst, if◌then◌else◌,
}
use grav.Message.{Message}
use grav.MsgBuffer.{MsgBuffer, iter}
use grav.PodConnection.Status.{failures, any, is_success}
use grav.Pool.{ConnectionPool, prepare_next}
use grav.Pool.Ring.{Body, Member, Represents}
use grav.Pool.Prepare.{stays, fate, status, prepared, member, prepare_next_stays}

failed_stays :
    (m : Member) (msg : Message) (more : List Message)
    → failures m.feedback_chan ≡ msg ∷ more
    → length (m.failed ++ failures m.feedback_chan) < 64
    → fate (status m.body) ≡ stays
failed_stays m msg more f l = ground (arith, f)

-- The failed messages are sent again if one message succeeded, and nothing else is sent.
abbrev pub sent_again : Body → Body
sent_again x =
    let owed = x.failed ++ failures x.feedback_chan in
    let again = any is_success x.feedback_chan in
    record {
      sends = if again then x.sends ++ map some owed else x.sends;
      message_chan = x.message_chan;
      feedback_chan = [];
      failed = if again then [] else owed;
    }

prepared_failed :
    (msgs : List (Option Message)) (x : Body) (msg : Message) (more : List Message)
    → failures x.feedback_chan ≡ msg ∷ more
    → length (x.failed ++ failures x.feedback_chan) < 64
    → prepared msgs x ≡ sent_again x
prepared_failed msgs x msg more f l = ground (arith, f, l)

-- Where the feedback channel of the second connection holds a failed message and the failed queue
-- stays under the high-water mark, prepareNext returns no error, keeps the connection in the ring
-- and empties its channel. It sends it the failed messages again if a message succeeded, and
-- nothing else, so that a disconnect request or a replay request in the same batch is gone.
pub request_lost :
    {p : ConnectionPool} (buffer : MsgBuffer) (msgs : List (Option Message)) (m b : Member)
    (ms : List Member) (msg : Message) (more : List Message)
    → iter buffer ≡ some msgs
    → Represents p (m ∷ b ∷ ms)
    → failures b.feedback_chan ≡ msg ∷ more
    → length (b.failed ++ failures b.feedback_chan) < 64
    → (p' : ConnectionPool) × (prepare_next p buffer ≡ some (none, p'))
      × Represents p' (m ∷ member b.id (sent_again b.body) ∷ ms)
request_lost buffer msgs m b ms msg more i r f l =
    let (p', e, r') = prepare_next_stays buffer msgs i m b ms r (failed_stays b msg more f l) in
    let kept = prepared_failed msgs b.body msg more f l in
    (p', e, subst (λ x. Represents p' (m ∷ member b.id x ∷ ms)) kept r')
