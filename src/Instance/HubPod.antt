-- ===== src/Instance/HubPod.antt =====
-- The hub's pod: what it can have in its feedback channel.
use grav.Common.{◌≡◌, sym, subst, arith, false, [], ◌∷◌, none, some, inl, inr, ◌⊎◌, All}
use grav.Message.{Message}
use grav.PodConnection.{msg_success}
use grav.Pod.{Pod, OnFunc, set_on_func, request_replay, send, receive, report}
use grav.Instance.{hub_func, start_hub}
use grav.Instance.Ring.{IsSuccess}

-- The hub's pod fails on nothing, and asks for no replay.
pub record IsHubPod (pod : Pod) : Type 0 where
  pub func : (pod.on_func ≡ none) ⊎ (pod.on_func ≡ some (OnFunc.handle hub_func))
  pub live : pod.dead ≡ false
  pub no_replay : pod.wants_replay ≡ false
  pub passed_on : pod.feedback_chan ≡ []

-- What the hub's pod has come to, before its feedback is passed on.
pub record IsHubPodNow (pod : Pod) : Type 0 where
  pub func : (pod.on_func ≡ none) ⊎ (pod.on_func ≡ some (OnFunc.handle hub_func))
  pub live : pod.dead ≡ false
  pub no_replay : pod.wants_replay ≡ false
  pub successes : All IsSuccess pod.feedback_chan

pub start_hub_lem : (pod : Pod) → IsHubPod pod → IsHubPodNow (start_hub pod)
unfolding start_hub set_on_func request_replay
start_hub_lem pod h =
    let nothing : (start_hub pod).feedback_chan ≡ [] = ground (arith, h.no_replay, h.passed_on) in
    record {
      func = ground arith;
      live = ground (arith, h.live);
      no_replay = ground (arith, h.no_replay);
      successes = subst (All IsSuccess) (sym nothing) tt;
    }

pub receive_lem : (pod : Pod) (msg : Message) → IsHubPod pod → IsHubPodNow (receive pod msg)
unfolding receive report
receive_lem pod msg h =
    let chan : ((receive pod msg).feedback_chan ≡ [])
        ⊎ ((receive pod msg).feedback_chan ≡ msg_success ∷ []) =
      ground (arith, h.func, h.passed_on) in
    record {
      func = ground (arith, h.func);
      live = ground (arith, h.func, h.live);
      no_replay = ground (arith, h.func, h.no_replay);
      successes = elim chan [
        | inl e ↦ subst (All IsSuccess) (sym e) tt
        | inr e ↦ subst (All IsSuccess) (sym e) (tt, tt)
      ];
    }

pub send_lem : (pod : Pod) (msg : Message) → IsHubPod pod → IsHubPod (send pod msg).1
unfolding send
send_lem pod msg h = ground (arith, h.func, h.live, h.no_replay, h.passed_on)
