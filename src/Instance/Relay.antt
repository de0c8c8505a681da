-- ===== src/Instance/Relay.antt =====
-- A message that comes to an instance over a websocket.
use grav.Common.{
  ℕ, ◌≡◌, ap, ◌∙◌, arith, String, true, false, [], ◌∷◌, ◌++◌, some, Option-cases, inl, inr,
}
use grav.Message.{Message, Codec, Encodes}
use grav.ConnectionHandler.{ConnectionHandler, read}
use grav.Filter.{allow}
use grav.Filter.Allow.{allow-filter_uuid}
use grav.Pool.Feed.{feed}
use grav.Pod.{Pod, send, receive, report}
use grav.Bridge.{calls}
use grav.Instance.{Grav, connect_with_opts}
use grav.Instance.HubPod.{IsHubPod}
use grav.Instance.Steps.{
  hub_id, set_hub_pod, GravStep, connected, reported, hub_started, hub_received, hub_sent, meshed,
  handled, Reachable, stepped,
}
use grav.Instance.Total.{IsRunning, Reachable-IsRunning}
use grav.Websocket.Frames.{last, last-append, out_msg, send_out_lem}
use grav.Websocket.{Conn, written_ok, send_msg, receive_msg}

-- Every step but the call of On in the goroutine of initHub.
abbrev pub IsOther : {g g' : Grav} → GravStep g g' → Type 0
IsOther (connected g' pod wants e) = Unit {0}
IsOther (reported pool a feedback n e) = Unit {0}
IsOther (hub_started g' e) = ⊥
IsOther (hub_received g' msg e) = Unit {0}
IsOther (hub_sent msg) = Unit {0}
IsOther (meshed hub s) = Unit {0}
IsOther (handled bus fuel msg e) = Unit {0}

pub data Later (g : Grav) : Grav → Type 0 where
  here : Later g g
  later : {g₁ g₂ : Grav} → Later g g₁ → (s : GravStep g₁ g₂) → IsOther s → Later g g₂

Later-Reachable : {g g' : Grav} → Later g g' → Reachable g → Reachable g'
Later-Reachable here r = r
Later-Reachable (later l s o) r = stepped (Later-Reachable l r) s

filter-set_hub_pod :
    (g g' : Grav) (pod : Pod)
    → set_hub_pod g pod ≡ some g'
    → g'.hub_pod.message_filter ≡ pod.message_filter
unfolding set_hub_pod
filter-set_hub_pod g g' pod e = elim (Option-cases (feed g.bus.pool hub_id pod.feedback_chan)) [
  | inl out ↦ ground (arith, out, e)
  | inr (pool, l) ↦ ground (arith, l, e)
]

filter-receive :
    (pod : Pod) (msg : Message)
    → IsHubPod pod
    → (receive pod msg).message_filter ≡ pod.message_filter
unfolding receive report
filter-receive pod msg h = ground (arith, h.func)

-- The hub's pod does not let the message through.
abbrev Denied : Message → Grav → Type 0
Denied msg g = allow g.hub_pod.message_filter msg ≡ false

step-Denied :
    (msg : Message) {g g' : Grav}
    → (s : GravStep g g') → IsOther s
    → IsRunning g
    → Denied msg g
    → Denied msg g'
unfolding connect_with_opts send
step-Denied msg (connected g' pod wants e) o r d = ground (arith, e, d)
step-Denied msg (reported pool a feedback n e) o r d = d
step-Denied msg (hub_started g' e) o r d = absurd o
step-Denied msg {g} (hub_received g' m e) o r d =
    ap (λ f. allow f msg)
      (filter-set_hub_pod g g' (receive g.hub_pod m) e ∙ filter-receive g.hub_pod m r.pod)
    ∙ d
step-Denied msg {g} (hub_sent m) o r d =
    ground (arith, r.pod.live, d, allow-filter_uuid g.hub_pod.message_filter m.uuid msg)
step-Denied msg (meshed hub s) o r d = d
step-Denied msg (handled bus fuel m e) o r d = d

Later-Denied :
    (msg : Message) {g g' : Grav} → Later g g' → Reachable g → Denied msg g → Denied msg g'
Later-Denied msg here r d = d
Later-Denied msg (later l s o) r d =
    step-Denied msg s o (Reachable-IsRunning (Later-Reachable l r)) (Later-Denied msg l r d)

-- A pod that does not let a message through does nothing with it.
receive-Denied :
    (pod : Pod) (msg : Message)
    → IsHubPod pod
    → allow pod.message_filter msg ≡ false
    → (calls pod msg ≡ false) × (receive pod msg ≡ pod)
unfolding calls receive
receive-Denied pod msg h d = (ground (arith, h.func, d), ground (arith, h.func, d))

send-Denied :
    (pod : Pod) (msg : Message) → IsHubPod pod → allow (send pod msg).1.message_filter msg ≡ false
unfolding send
send-Denied pod msg h = ground (arith, h.live, allow-filter_uuid pod.message_filter msg.uuid msg)

-- The instance after its hub's pod has sent the message.
abbrev pub after_send : Grav → Message → Grav
after_send g msg = record g { hub_pod = (send g.hub_pod msg).1 }

-- For every instance that can be reached and every message that JSON gives back: where a peer
-- writes the message to a websocket without an error, the goroutine that reads the last frame goes
-- on with the message, and the hub's pod sends it to the bus. As long as initHub does not call On
-- after that, whatever else the instance goes through, messageHandler is not called for the message
-- when it comes to the hub's pod, and the pod stays as it is, so it is not sent to the mesh again.
pub relayed :
    (codec : Codec) (conn : Conn) (uuid : String) (now : ℕ) (g g' : Grav) (c : ConnectionHandler)
    → (msg : Message) → Reachable g
    → Encodes codec msg
    → Later (after_send g msg) g'
    → let arrived =
        receive_msg codec uuid now (last (send_msg codec written_ok conn msg).1.written) in
      (read c arrived ≡ (c, true, some msg))
      × ((after_send g msg).hub_pod.bus_chan ≡ g.hub_pod.bus_chan ++ (msg ∷ []))
      × (calls g'.hub_pod msg ≡ false)
      × (receive g'.hub_pod msg ≡ g'.hub_pod)
unfolding read send
relayed codec conn uuid now g g' c msg reach e l =
    let r = Reachable-IsRunning reach in
    let sent = stepped reach (hub_sent msg) in
    let r' = Reachable-IsRunning (Later-Reachable l sent) in
    let denied = Later-Denied msg l sent (send-Denied g.hub_pod msg r.pod) in
    let (not_called, same) = receive-Denied g'.hub_pod msg r'.pod denied in
    let (frame, written, arrives) = send_out_lem codec uuid now conn (out_msg msg) e in
    let at_end = ap last written ∙ last-append conn.written frame in
    (
      ap (λ x. read c x) (ap (receive_msg codec uuid now) at_end ∙ arrives),
      ground (arith, r.pod.live),
      not_called,
      same,
    )
