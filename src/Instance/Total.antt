-- ===== src/Instance/Total.antt =====
-- The bus of an instance, over all that the instance goes through.
use grav.Common.{
  String, ℕ, ◌≡◌, refl, ap, ◌∙◌, subst, arith, false, List, [], ◌∷◌, some, inl, inr, length,
  Option-cases,
}
use grav.Message.{Message}
use grav.MsgBuffer.{default_buffer_size, new_msg_buffer}
use grav.Options.{Plugin, OptionsModifier, new_options_with_modifiers}
use grav.MsgBuffer.Range.{InRange}
use grav.Pool.{new_connection_pool}
use grav.Pool.Ring.{Member, Represents}
use grav.Pool.Refines.{new_connection_pool-Represents, insert_empty_refines, fresh_member}
use grav.Pool.Feed.{feed}
use grav.Bus.{MessageBus, new_message_bus, add_pod, handle}
use grav.Bus.Members.{In, HasId}
use grav.Bus.Everyone.{Handled}
use grav.Pod.{Pod, new_pod, receive}
use grav.Hub.{init_hub}
use grav.Hub.Reach as HubReach
use grav.Instance.{Grav, connect_bus, connect_with_opts, new, start_hub}
use grav.Instance.Ring.{Handled-Keeps, fed_all-Keeps, fed_all-Keeps_self}
use grav.Instance.Steps.{
  hub_id, set_hub_pod, GravStep, connected, reported, hub_started, hub_received, hub_sent, meshed,
  handled, Reachable, started, stepped,
}
use grav.Instance.HubPod.{IsHubPod, IsHubPodNow, start_hub_lem, receive_lem, send_lem}
use grav.Instance.Running.{HasHub, handle_lem, connect_lem, handled_lem, fed_lem}

pub record IsRunning (g : Grav) : Type 0 where
  pub bus : HasHub g.bus
  pub pod : IsHubPod g.hub_pod
  pub hub : HubReach.Reachable false g.hub

set_hub_pod_lem :
    (g g' : Grav) (pod : Pod)
    → IsRunning g
    → IsHubPodNow pod
    → set_hub_pod g pod ≡ some g'
    → IsRunning g'
unfolding set_hub_pod
set_hub_pod_lem g g' pod r h e = elim (Option-cases (feed g.bus.pool hub_id pod.feedback_chan)) [
  | inl out ↦ absurd (ground (arith, out, e))
  | inr (pool, l) ↦
      let same : record g {
        bus = record g.bus { pool = pool };
        hub_pod = record pod { feedback_chan = [] };
      }
          ≡ g' =
        ground (arith, l, e) in
      subst IsRunning same (record {
        bus =
            fed_lem g.bus pool hub_id pod.feedback_chan r.bus l
              (λ ring. fed_all-Keeps_self hub_id pod.feedback_chan ring h.successes);
        pod = record { func = h.func; live = h.live; no_replay = h.no_replay; passed_on = refl };
        hub = r.hub;
      })
]

step_lem : {g g' : Grav} → GravStep g g' → IsRunning g → IsRunning g'
unfolding connect_with_opts
step_lem {g} (connected g' pod wants e) r =
    let (bus', e', b) = connect_lem g.bus wants r.bus in
    let same : record g { bus = bus' } ≡ g' = ground (arith, e, e') in
    subst IsRunning same (record { bus = b; pod = r.pod; hub = r.hub })
step_lem {g} (reported pool a fs n e) r = record {
  bus = fed_lem g.bus pool a fs r.bus e (λ ring. fed_all-Keeps hub_id a fs ring n);
  pod = r.pod;
  hub = r.hub;
}
step_lem {g} (hub_started g' e) r =
    set_hub_pod_lem g g' (start_hub g.hub_pod) r (start_hub_lem g.hub_pod r.pod) e
step_lem {g} (hub_received g' msg e) r =
    set_hub_pod_lem g g' (receive g.hub_pod msg) r (receive_lem g.hub_pod msg r.pod) e
step_lem {g} (hub_sent msg) r = record {
  bus = r.bus;
  pod = send_lem g.hub_pod msg r.pod;
  hub = r.hub;
}
step_lem {g} (meshed hub s) r = record { bus = r.bus; pod = r.pod; hub = HubReach.stepped r.hub s }
step_lem {g} (handled bus fuel msg e) r = record {
  bus = handled_lem fuel g.bus bus msg r.bus e;
  pod = r.pod;
  hub = r.hub;
}

pub new_buffer-InRange : InRange (new_msg_buffer default_buffer_size)
unfolding new_msg_buffer
new_buffer-InRange = record {
  positive = omega arith;
  bounded = omega arith;
  start_in = omega arith;
}

new_lem :
    (g : Grav) (node_uuid : String) (logger : Plugin) (mods : List OptionsModifier)
    → new node_uuid logger mods ≡ some g
    → IsRunning g
unfolding new connect_bus add_pod new_message_bus new_pod
new_lem g node_uuid logger mods e =
    let (pool, e', r) =
      insert_empty_refines {p = new_connection_pool} [] new_connection_pool-Represents in
    let bus : MessageBus = record { pool = pool; buffer = new_msg_buffer default_buffer_size } in
    let options = new_options_with_modifiers logger mods in
    let same : record {
      node_uuid = node_uuid;
      belongs_to = options.belongs_to;
      interests = options.interests;
      bus = bus;
      hub = init_hub node_uuid options.belongs_to options.interests;
      hub_pod = new_pod false;
    }
        ≡ g =
      ground (arith, e, e') in
    subst IsRunning same (record {
      bus = record {
        ring = fresh_member 1 [] ∷ [];
        represents = r;
        buffered = new_buffer-InRange;
        keeps = record {
          keeper = fresh_member 1 [];
          inside = inl refl;
          at = refl;
          clean = record { nothing_failed = refl; successes = tt };
        };
      };
      pod = record { func = inl refl; live = refl; no_replay = refl; passed_on = refl };
      hub = HubReach.started node_uuid options.belongs_to options.interests;
    })

pub Reachable-IsRunning : {g : Grav} → Reachable g → IsRunning g
Reachable-IsRunning (started g node_uuid logger mods e) = new_lem g node_uuid logger mods e
Reachable-IsRunning (stepped r s) = step_lem s (Reachable-IsRunning r)

HasId-of_In : (m : Member) (ms : List Member) {a : ℕ} → In m ms → m.id ≡ a → HasId a ms
HasId-of_In m [] i e = absurd i
HasId-of_In m (x ∷ ms) (inl p) e = inl (ap (λ (y : Member). y.id) p ∙ e)
HasId-of_In m (x ∷ ms) (inr i) e = inr (HasId-of_In m ms i e)

-- For every instance that can be reached from a new one by connecting pods, by their feedback, by
-- messages that the bus handles, by the hub and by its pod: with as much fuel as the ring has
-- members the bus handles every message without a panic, every member that stays gets the message,
-- and the connection of the hub is still in the ring afterwards.
pub handle-Reachable :
    (g : Grav) (msg : Message)
    → Reachable g
    → (ring ring' : List Member) × (bus' : MessageBus) × Represents g.bus.pool ring
      × (handle (length ring) g.bus msg ≡ some bus')
      × Handled ring msg bus' ring'
      × HasId hub_id ring'
handle-Reachable g msg reach =
    let r = Reachable-IsRunning reach in
    let b = r.bus in
    let (bus', ring', e, h) = handle_lem g.bus msg b.ring b.represents b.buffered b.keeps in
    let k = Handled-Keeps hub_id b.ring ring' msg bus' b.represents.distinct b.keeps h in
    (b.ring, ring', bus', b.represents, e, h, HasId-of_In k.keeper ring' k.inside k.at)
