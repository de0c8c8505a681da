-- ===== src/MsgBuffer/Range.antt =====
-- Push on a buffer whose indices are in range, whatever UUIDs the messages have.
use grav.Common.{
  ◌-◌, ◌≤◌, ◌<◌, ◌≡◌, List, [], ◌∷◌, Option, some, arith, if_pos, ℕ_discrete, length, length-set,
  length-append, get_elem?_of_lt, advance,
}
use grav.Message.{Message}
use grav.MsgBuffer.{MsgBuffer, push, iter}
use grav.MsgBuffer.Valid.{IsValid, push_room, push_full}
use grav.MsgBuffer.Loops.{iter_lem}

pub record InRange (b : MsgBuffer) : Type 0 where
  pub positive : 0 < b.limit
  pub bounded : length b.order ≤ b.limit
  pub start_in : b.start_index ≤ length b.order - 1

pub IsValid-InRange : {b : MsgBuffer} → IsValid b → InRange b
IsValid-InRange v = record { positive = v.positive; bounded = v.bounded; start_in = v.start_in }

-- With a positive limit and indices in range, a push never panics, whatever the UUID of the
-- message, and the limit and the indices stay so.
pub push_total :
    (b : MsgBuffer) (m : Message) → InRange b → (b' : MsgBuffer) × (push b m ≡ some b') × InRange b'
unfolding advance
push_total b m v = elim (ℕ_discrete (length b.order) b.limit) [
  | yes full ↦
      let (first, g) =
        get_elem?_of_lt b.order b.start_index (omega (arith, v.positive, v.start_in)) in
      (
        _,
        push_full b m first full g,
        record {
          positive = v.positive;
          bounded = omega (arith, length-set b.order b.start_index m.uuid, v.bounded);
          start_in =
              ground (arith, length-set b.order b.start_index m.uuid, v.start_in, v.positive);
        },
      )
  | no room ↦ (
    _,
    push_room b m room,
    record {
      positive = v.positive;
      bounded = omega (arith, length-append b.order (m.uuid ∷ []), v.bounded);
      start_in = omega (arith, length-append b.order (m.uuid ∷ []), v.start_in);
    },
  )
]

-- `Iter` ends.
pub iter_total : (b : MsgBuffer) → InRange b → (ms : List (Option Message)) × (iter b ≡ some ms)
unfolding iter
iter_total b v = elim (ℕ_discrete (length b.order) 0) [
  | yes e ↦ ([], if_pos (ℕ_discrete (length b.order) 0) e _ _)
  | no n ↦ (_, iter_lem b (omega (arith, v.start_in)))
]
