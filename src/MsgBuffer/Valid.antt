-- ===== src/MsgBuffer/Valid.antt =====
-- The invariant of the buffer, and pushes of messages with a new UUID.
use grav.Common.{
  ℕ, ◌-◌, ◌≤◌, ◌<◌, ◌≡◌, ◌≢◌, String, [], ◌∷◌, ◌++◌, some, arith, false, is_some, ℕ_discrete,
  length, get_elem?, set, length-append, length-set, get_elem?_of_lt, advance, lookup, insert,
  delete, lookup-insert, lookup-delete, has, has-append, has-set, has_of_get, Distinct,
  Distinct-set, Distinct-append, refl,
}
use grav.Message.{Message}
use grav.MsgBuffer.{MsgBuffer, new_msg_buffer, push}

pub record IsValid (b : MsgBuffer) : Type 0 where
  pub positive : 0 < b.limit
  pub bounded : length b.order ≤ b.limit
  pub start_in : b.start_index ≤ length b.order - 1
  pub unfilled : length b.order < b.limit → b.start_index ≡ 0
  pub next_in : b.next_index ≤ length b.order - 1
  pub distinct : Distinct b.order
  pub keyed : (u : String) → is_some (lookup u b.msgs) ≡ has u b.order
  pub own : (u : String) (m : Message) → lookup u b.msgs ≡ some m → m.uuid ≡ u

pub new_msg_buffer-IsValid : (limit : ℕ) → 0 < limit → IsValid (new_msg_buffer limit)
unfolding new_msg_buffer lookup has
new_msg_buffer-IsValid limit h = record {
  positive = h;
  bounded = omega arith;
  start_in = omega arith;
  unfilled = λ _. refl;
  next_in = omega arith;
  distinct = tt;
  keyed = λ u. refl;
  own = λ u m e. ground arith;
}

-- The two shapes of a push.
pub push_room :
    (b : MsgBuffer) (m : Message)
    → length b.order ≢ b.limit
    → push b m ≡ some (record b { msgs = insert m.uuid m b.msgs; order = b.order ++ (m.uuid ∷ []) })
unfolding push
push_room b m h = ground arith

pub push_full :
    (b : MsgBuffer) (m : Message) (first : String)
    → length b.order ≡ b.limit
    → get_elem? b.order b.start_index ≡ some first
    → push b m
      ≡ some (record b {
        msgs = delete first (insert m.uuid m b.msgs);
        order = set b.order b.start_index m.uuid;
        start_index = advance (length b.order) b.start_index;
      })
unfolding push
push_full b m first h g = ground arith

module _ (b : MsgBuffer) (m : Message) (v : IsValid b) (fresh : has m.uuid b.order ≡ false) where
  pub room-IsValid :
      length b.order < b.limit
      → IsValid (record b { msgs = insert m.uuid m b.msgs; order = b.order ++ (m.uuid ∷ []) })
  unfolding has
  room-IsValid h = record {
    positive = v.positive;
    bounded = omega (arith, length-append b.order (m.uuid ∷ []), v.bounded);
    start_in = omega (arith, v.unfilled h);
    unfilled = λ _. v.unfilled h;
    next_in = omega (arith, length-append b.order (m.uuid ∷ []), v.next_in);
    distinct = Distinct-append m.uuid b.order v.distinct fresh;
    keyed = λ u.
        ground
          (arith, v.keyed u, lookup-insert m.uuid u m b.msgs, has-append u b.order (m.uuid ∷ []));
    own = λ u n e. ground (arith, v.own u n, lookup-insert m.uuid u m b.msgs);
  }

  pub full-IsValid :
      (first : String)
      → length b.order ≡ b.limit
      → get_elem? b.order b.start_index ≡ some first
      → IsValid (record b {
        msgs = delete first (insert m.uuid m b.msgs);
        order = set b.order b.start_index m.uuid;
        start_index = advance (length b.order) b.start_index;
      })
  unfolding advance
  full-IsValid first h g = record {
    positive = v.positive;
    bounded = omega (arith, length-set b.order b.start_index m.uuid, v.bounded);
    start_in = ground (arith, length-set b.order b.start_index m.uuid, v.start_in, v.positive);
    unfilled = λ k. absurd (omega (arith, length-set b.order b.start_index m.uuid));
    next_in = omega (arith, length-set b.order b.start_index m.uuid, v.next_in);
    distinct = Distinct-set m.uuid b.order b.start_index v.distinct fresh;
    keyed = λ u. ground (
      arith,
      v.keyed u,
      lookup-insert m.uuid u m b.msgs,
      lookup-delete first u (insert m.uuid m b.msgs),
      has-set m.uuid u first b.order b.start_index v.distinct fresh g,
      has_of_get first b.order b.start_index g,
    );
    own = λ u n e. ground (
      arith,
      v.own u n,
      lookup-insert m.uuid u m b.msgs,
      lookup-delete first u (insert m.uuid m b.msgs),
    );
  }

-- A valid buffer takes any message with a UUID that it does not hold, and stays valid.
pub push-IsValid :
    (b : MsgBuffer) (m : Message)
    → IsValid b
    → has m.uuid b.order ≡ false
    → (b' : MsgBuffer) × (push b m ≡ some b') × IsValid b' × (b'.limit ≡ b.limit)
push-IsValid b m v fresh = elim (ℕ_discrete (length b.order) b.limit) [
  | yes full ↦
      let (first, g) =
        get_elem?_of_lt b.order b.start_index (omega (arith, v.positive, v.start_in)) in
      (_, push_full b m first full g, full-IsValid b m v fresh first full g, refl)
  | no room ↦ (_, push_room b m room, room-IsValid b m v fresh (omega (arith, v.bounded)), refl)
]
