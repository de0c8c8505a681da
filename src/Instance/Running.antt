-- ===== src/Instance/Running.antt =====
-- The bus of an instance, of which the hub's connection is a member.
use grav.Common.{ℕ, ◌+◌, ◌≡◌, subst, arith, Bool, List, [], ◌∷◌, some, inl, inr, length}
use native.Mathlib.Nat.{le_refl}
use grav.Message.{Message}
use grav.MsgBuffer.Range.{InRange}
use grav.PodConnection.{Feedback}
use grav.Pool.{ConnectionPool}
use grav.Pool.Ring.{Member, Represents}
use grav.Pool.Refines.{insert_refines, fresh_member}
use grav.Pool.Feed.{feed, fed_all, feed_refines}
use grav.Bus.{MessageBus, add_pod, handle}
use grav.Bus.Fuel.{handle_agrees}
use grav.Bus.Everyone.{Handled, handle_everyone}
use grav.Pod.{new_pod}
use grav.Instance.{connect_bus}
use grav.Instance.Ring.{Keeps, clean-Stays, Handled-Keeps}
use grav.Instance.Steps.{hub_id}

-- A bus whose ring has the hub's member.
pub record HasHub (bus : MessageBus) : Type 0 where
  pub ring : List Member
  pub represents : Represents bus.pool ring
  pub buffered : InRange bus.buffer
  pub keeps : Keeps hub_id ring

pub handle_lem :
    (bus : MessageBus) (msg : Message) (ring : List Member)
    → Represents bus.pool ring
    → InRange bus.buffer
    → Keeps hub_id ring
    → (bus' : MessageBus) × (ring' : List Member) × (handle (length ring) bus msg ≡ some bus')
      × Handled ring msg bus' ring'
handle_lem bus msg [] r v k = absurd k.inside
handle_lem bus msg (cur ∷ rest) r v k =
    handle_everyone bus msg cur rest (length (cur ∷ rest)) k.keeper r v (le_refl _) k.inside
      (clean-Stays k.keeper k.clean)

pub connect_lem :
    (bus : MessageBus) (wants : Bool)
    → HasHub bus
    → (bus' : MessageBus) × (connect_bus bus wants ≡ some (new_pod wants, bus')) × HasHub bus'
unfolding connect_bus add_pod
connect_lem bus wants b = go b.ring b.represents b.keeps
  where
    go :
        (ring : List Member)
        → Represents bus.pool ring
        → Keeps hub_id ring
        → (bus' : MessageBus) × (connect_bus bus wants ≡ some (new_pod wants, bus')) × HasHub bus'
    go [] r k = absurd k.inside
    go (m ∷ ms) r k =
        let (pool, e, r') = insert_refines {p = bus.pool} [] m ms r in
        (
          record bus { pool = pool },
          ground (arith, e),
          record {
            ring = m ∷ fresh_member (bus.pool.max_id + 1) [] ∷ ms;
            represents = r';
            buffered = b.buffered;
            keeps = record {
              keeper = k.keeper;
              inside = elim k.inside [ inl e' ↦ inl e' | inr i ↦ inr (inr i) ];
              at = k.at;
              clean = k.clean;
            };
          },
        )

-- Whatever the fuel was with which the bus has handled a message.
pub handled_lem :
    (fuel : ℕ) (bus bus' : MessageBus) (msg : Message)
    → HasHub bus
    → handle fuel bus msg ≡ some bus'
    → HasHub bus'
handled_lem fuel bus bus' msg b e =
    let (bus'', ring', e', h) = handle_lem bus msg b.ring b.represents b.buffered b.keeps in
    let same : bus'' ≡ bus' = handle_agrees (length b.ring) fuel bus bus'' bus' msg e' e in
    subst HasHub same (record {
      ring = ring';
      represents = h.represents;
      buffered = h.buffered;
      keeps = Handled-Keeps hub_id b.ring ring' msg bus'' b.represents.distinct b.keeps h;
    })

pub fed_lem :
    (bus : MessageBus) (pool : ConnectionPool) (a : ℕ) (fs : List Feedback)
    → HasHub bus
    → feed bus.pool a fs ≡ some pool
    → ((ring : List Member) → Keeps hub_id ring → Keeps hub_id (fed_all a fs ring))
    → HasHub (record bus { pool = pool })
fed_lem bus pool a fs b e keep = record {
  ring = fed_all a fs b.ring;
  represents = feed_refines a fs bus.pool pool b.ring e b.represents;
  buffered = b.buffered;
  keeps = keep b.ring b.keeps;
}
