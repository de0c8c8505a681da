-- ===== src/Pod/Leaving.antt =====
-- A pod that disconnects, and the bus that takes its connection out of the ring.
use grav.Common.{
  ℕ, ◌<◌, ◌≡◌, refl, sym, ap, subst, ◌∙◌, arith, true, List, [], ◌∷◌, Option, none, some, length,
}
use grav.Message.{Message}
use grav.MsgBuffer.{MsgBuffer, iter}
use grav.PodConnection.{PodConnection, Feedback, msg_disconnect, high_water_mark}
use grav.PodConnection.Status.{failures, status_of-disconnect}
use grav.Pool.{ConnectionPool, prepare_next, disconnecting}
use grav.Pool.Ring.{Member, Represents, Absent}
use grav.Pool.Feed.{feed, fed_all, grown, feed_refines}
use grav.Pool.Prepare.{prepare_next_goes}
use grav.Pod.{Pod, disconnect, start, receive, send}

start-dead : (p : Pod) (ms : List Message) → (start p ms).dead ≡ true
unfolding start
start-dead p [] = refl
start-dead p (m ∷ ms) = start-dead (receive p m) ms

fed_all-Absent :
    (a : ℕ) (fs : List Feedback) (ms : List Member) → Absent a ms → fed_all a fs ms ≡ ms
fed_all-Absent a fs [] h = refl
fed_all-Absent a fs (m ∷ ms) h = ground (arith, h.0, fed_all-Absent a fs ms h.1)

-- Where the second connection of a ring of two or more has fewer than 64 failed messages and no
-- failure in its feedback, its pod has passed its feedback on and calls Disconnect, and the buffer
-- can be gone through: prepareNext returns that the pod disconnects, the connection is out of the
-- ring, closed, and holds the messages that it held; Send of the pod returns the nil receipt and
-- sends nothing, both at once and after it has taken any messages to the end of its channel.
pub disconnect_lem :
    (pod : Pod) (buffer : MsgBuffer) (msgs : List (Option Message)) (p p' : ConnectionPool)
    → (m b : Member) (ms : List Member) (unread : List Message) (late : Message)
    → iter buffer ≡ some msgs
    → Represents p (m ∷ b ∷ ms)
    → pod.feedback_chan ≡ []
    → failures b.feedback_chan ≡ []
    → length b.failed < high_water_mark
    → feed p b.id (disconnect pod).feedback_chan ≡ some p'
    → (p'' : ConnectionPool) × (c : PodConnection) × (prepare_next p' buffer
        ≡ some (some disconnecting, p''))
      × Represents p'' (m ∷ ms)
      × (p''.heap b.id ≡ some c)
      × (c.closed ≡ true)
      × (c.message_chan ≡ b.message_chan)
      × (send (disconnect pod) late ≡ (none, disconnect pod))
      × (send (start (disconnect pod) unread) late ≡ (none, start (disconnect pod) unread))
unfolding disconnect send
disconnect_lem pod buffer msgs p p' m b ms unread late i r passed_on clean few e =
    let fs = msg_disconnect ∷ [] in
    let given : (disconnect pod).feedback_chan ≡ fs = ground (arith, passed_on) in
    let ring : fed_all b.id fs (m ∷ b ∷ ms) ≡ m ∷ grown b.id fs b ∷ ms =
      ground (arith, r.distinct.0.0, fed_all-Absent b.id fs ms r.distinct.1.0) in
    let r' =
      subst (Represents p') ring
        (feed_refines b.id fs p p' (m ∷ b ∷ ms) (sym (ap (feed p b.id) given) ∙ e) r) in
    let (wants, fine) = status_of-disconnect b.feedback_chan b.failed clean few in
    let (p'', ended, r'', dead) =
      prepare_next_goes buffer msgs i m (grown b.id fs b) ms disconnecting r'
        (ground (arith, wants, fine)) in
    (p'', _, ended, r'', dead, refl, refl, refl, ground (arith, start-dead (disconnect pod) unread))
