-- ===== src/MsgBuffer/Evict.antt =====
-- A push of the UUID that the buffer already holds as its oldest.
use grav.Common.{
  ◌≡◌, ◌∙◌, ap, List, [], ◌∷◌, ◌++◌, map, Option, none, some, arith, length, length-set, get_elem?,
  lt_of_get, take, drop, suc, lookup, lookup-delete, insert, delete, set, map-append, String,
  advance, advance-lt, ◌<◌,
}
use grav.Message.{Message}
use grav.MsgBuffer.{MsgBuffer, push, iter}
use grav.MsgBuffer.Valid.{push_full}
use grav.MsgBuffer.Loops.{message_at, iter_lem}
use grav.MsgBuffer.Recent.{rotate-set}

-- Pushing a message with the UUID of the oldest entry onto a full buffer returns a buffer on which
-- Iter calls its function with nil last: the map has lost the message that was just pushed.
pub push_oldest_again :
    (b : MsgBuffer) (m : Message)
    → length b.order ≡ b.limit
    → get_elem? b.order b.start_index ≡ some m.uuid
    → (b' : MsgBuffer) × (ms : List (Option Message)) × (push b m ≡ some b')
      × (iter b' ≡ some (ms ++ (none ∷ [])))
push_oldest_again b m full g = (
  b',
  map (message_at b') rest,
  push_full b m m.uuid full g,
  iter_lem b' inside
      ∙ ap (λ us. some (map (message_at b') us))
          (rotate-set b.order b.start_index m.uuid m.uuid g lt)
      ∙ ap some (map-append (message_at b') rest (m.uuid ∷ []))
      ∙ ap (λ o. some (map (message_at b') rest ++ (o ∷ []))) lost,
)
  where
    b' : MsgBuffer
    b' = record b {
      msgs = delete m.uuid (insert m.uuid m b.msgs);
      order = set b.order b.start_index m.uuid;
      start_index = advance (length b.order) b.start_index;
    }

    rest : List String
    rest = drop (suc b.start_index) b.order ++ take b.start_index b.order

    lt : b.start_index < length b.order
    lt = lt_of_get b.order b.start_index g

    inside : b'.start_index < length b'.order
    inside = omega (
      arith,
      length-set b.order b.start_index m.uuid,
      advance-lt (length b.order) b.start_index lt,
    )

    lost : lookup m.uuid b'.msgs ≡ none
    lost = ground (arith, lookup-delete m.uuid m.uuid (insert m.uuid m b.msgs))
