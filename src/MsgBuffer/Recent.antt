-- ===== src/MsgBuffer/Recent.antt =====
-- The buffer as the list of its messages, oldest first, against a bounded queue.
use grav.Common.{
  ℕ, suc, ◌-◌, ◌<◌, ◌≡◌, ◌≢◌, refl, ap, sym, ◌∙◌, String, List, [], ◌∷◌, ◌++◌, map, Option, some,
  arith, ite, if_pos, if_neg, ℕ_discrete, length, get_elem?, set, take, drop, length-append,
  get_elem?_of_lt, advance, rotate, lookup, lt_of_get, length-map, map-append, length-drop,
  length-take, ap₂, set_last, take-suc-set, insert, delete, lookup-insert, lookup-delete, has,
  has-append, has-set, has-take, has-drop, has_behind, has_before, has_of_get, false, drop-set,
  drop_of_le, drop-cons_of_get, append-nil, append_assoc,
}
use native.Mathlib.Numerals.{add-one}
use grav.Message.{Message}
use grav.MsgBuffer.{MsgBuffer, push}
use grav.MsgBuffer.Valid.{IsValid, push_room, push_full, room-IsValid, full-IsValid}
use grav.MsgBuffer.Loops.{message_at}

-- The messages that `Iter` visits, oldest first.
abbrev pub view : MsgBuffer → List (Option Message)
view b = map (message_at b) (rotate b.start_index b.order)

-- What the buffer promises: a queue of at most `limit` entries that drops its oldest.
abbrev pub push_window {ℓ} : {A : Type ℓ} → ℕ → List A → A → List A
push_window limit q a = ite (ℕ_discrete (length q) limit) (drop 1 q ++ (a ∷ [])) (q ++ (a ∷ []))

-- Overwriting the oldest entry and moving the start, seen in the order of the visit.
pub rotate-set :
    (xs : List String) (i : ℕ) (x u : String)
    → get_elem? xs i ≡ some x
    → i < length xs
    → rotate (advance (length xs) i) (set xs i u) ≡ (drop (suc i) xs ++ take i xs) ++ (u ∷ [])
unfolding advance
rotate-set xs i x u g h = elim (ℕ_discrete i (length xs - 1)) [
  | yes last ↦ rw (if_pos (ℕ_discrete i (length xs - 1)) last) (
      append-nil (set xs i u)
      ∙ set_last xs i u (omega arith)
      ∙ ap (λ t. (t ++ take i xs) ++ (u ∷ [])) (sym (drop_of_le (suc i) xs (omega arith))))
  | no more ↦
      rw
        (
          if_neg (ℕ_discrete i (length xs - 1)) more,
          add-one i,
          drop-set xs i u,
          take-suc-set xs i u h,
        )
        (sym (append_assoc (drop (suc i) xs) (take i xs) (u ∷ [])))
]

-- Where neither the new UUID nor the evicted one stands, the map gives what it gave.
module _ (b : MsgBuffer) (m : Message) (first : String) where
  map_unchanged :
      (us : List String)
      → has m.uuid us ≡ false
      → has first us ≡ false
      → map (λ u. lookup u (delete first (insert m.uuid m b.msgs))) us ≡ map (message_at b) us
  unfolding has
  map_unchanged [] h k = refl
  map_unchanged (u ∷ us) h k = ground (
    arith,
    lookup-delete first u (insert m.uuid m b.msgs),
    lookup-insert m.uuid u m b.msgs,
    map_unchanged us,
  )

map_inserted :
    (b : MsgBuffer) (m : Message) (us : List String)
    → has m.uuid us ≡ false
    → map (λ u. lookup u (insert m.uuid m b.msgs)) us ≡ map (message_at b) us
unfolding has
map_inserted b m [] h = refl
map_inserted b m (u ∷ us) h = ground (arith, lookup-insert m.uuid u m b.msgs, map_inserted b m us)

length-rotate : (i : ℕ) (xs : List String) → length (rotate i xs) ≡ length xs
length-rotate i xs =
    omega (arith, length-append (drop i xs) (take i xs), length-drop i xs, length-take i xs)

pub length-view : (b : MsgBuffer) → length (view b) ≡ length b.order
length-view b =
    length-map (rotate b.start_index b.order) (message_at b) ∙ length-rotate b.start_index b.order

module _ (b : MsgBuffer) (m : Message) (v : IsValid b) (fresh : has m.uuid b.order ≡ false) where
  room-view :
      length b.order < b.limit
      → view (record b { msgs = insert m.uuid m b.msgs; order = b.order ++ (m.uuid ∷ []) })
        ≡ view b ++ (some m ∷ [])
  room-view h =
      let f = λ (u : String). lookup u (insert m.uuid m b.msgs) in
      let e : b.start_index ≡ 0 = v.unfilled h in
      ap (λ i. map f (rotate i (b.order ++ (m.uuid ∷ [])))) e
      ∙ ap (map f) (append-nil (b.order ++ (m.uuid ∷ [])))
      ∙ map-append f b.order (m.uuid ∷ [])
      ∙ ap₂ ◌++◌ (map_inserted b m b.order fresh) (ap (λ o. o ∷ []) newest)
      ∙ ap (λ us. map (message_at b) us ++ (some m ∷ [])) (sym (append-nil b.order))
      ∙ ap (λ i. map (message_at b) (rotate i b.order) ++ (some m ∷ [])) (sym e)
    where
      newest : lookup m.uuid (insert m.uuid m b.msgs) ≡ some m
      newest = ground (arith, lookup-insert m.uuid m.uuid m b.msgs)

  full-view :
      (first : String)
      → get_elem? b.order b.start_index ≡ some first
      → view (record b {
        msgs = delete first (insert m.uuid m b.msgs);
        order = set b.order b.start_index m.uuid;
        start_index = advance (length b.order) b.start_index;
      })
        ≡ drop 1 (view b) ++ (some m ∷ [])
  full-view first g =
      let f = λ (u : String). lookup u (delete first (insert m.uuid m b.msgs)) in
      let i = b.start_index in
      let rest = drop (suc i) b.order ++ take i b.order in
      ap (map f) (rotate-set b.order i first m.uuid g (lt_of_get b.order i g))
      ∙ map-append f rest (m.uuid ∷ [])
      ∙ ap₂ ◌++◌ (map_unchanged b m first rest (others m.uuid fresh) oldest)
          (ap (λ o. o ∷ []) newest)
      ∙ ap (λ us. drop 1 (map (message_at b) (us ++ take i b.order)) ++ (some m ∷ []))
          (ap (λ k. first ∷ drop k b.order) (sym (add-one i))
            ∙ sym (drop-cons_of_get b.order i first g))
    where
      others :
          (u : String)
          → has u b.order ≡ false
          → has u (drop (suc b.start_index) b.order ++ take b.start_index b.order) ≡ false
      others u h = ground (
        arith,
        has-append u (drop (suc b.start_index) b.order) (take b.start_index b.order),
        has-drop u (suc b.start_index) b.order h,
        has-take u b.start_index b.order h,
      )

      oldest : has first (drop (suc b.start_index) b.order ++ take b.start_index b.order) ≡ false
      oldest = ground (
        arith,
        has-append first (drop (suc b.start_index) b.order) (take b.start_index b.order),
        has_behind first b.order b.start_index v.distinct g,
        has_before first b.order b.start_index v.distinct g,
      )

      newest : lookup m.uuid (delete first (insert m.uuid m b.msgs)) ≡ some m
      newest = ground (
        arith,
        lookup-delete first m.uuid (insert m.uuid m b.msgs),
        lookup-insert m.uuid m.uuid m b.msgs,
        has_of_get first b.order b.start_index g,
      )

-- Pushing onto a valid buffer is pushing onto the window of its messages; no other UUID comes in.
pub push_lem :
    (b : MsgBuffer) (m : Message)
    → IsValid b
    → has m.uuid b.order ≡ false
    → (b' : MsgBuffer) × (push b m ≡ some b')
      × IsValid b'
      × (view b' ≡ push_window b.limit (view b) (some m))
      × (b'.limit ≡ b.limit)
      × ((u : String) → u ≢ m.uuid → has u b.order ≡ false → has u b'.order ≡ false)
unfolding has
push_lem b m v fresh = elim (ℕ_discrete (length b.order) b.limit) [
  | yes full ↦
      let (first, g) =
        get_elem?_of_lt b.order b.start_index (omega (arith, v.positive, v.start_in)) in
      (
        _,
        push_full b m first full g,
        full-IsValid b m v fresh first full g,
        full-view b m v fresh first g
            ∙ sym (if_pos (ℕ_discrete (length (view b)) b.limit) (length-view b ∙ full) _ _),
        refl,
        λ u n h. ground (arith, has-set m.uuid u first b.order b.start_index v.distinct fresh g),
      )
  | no room ↦
      let h : length b.order < b.limit = omega (arith, v.bounded) in
      (
        _,
        push_room b m room,
        room-IsValid b m v fresh h,
        room-view b m v fresh h
            ∙ sym (
                if_neg (ℕ_discrete (length (view b)) b.limit) (λ e. room (sym (length-view b) ∙ e))
                  _ _),
        refl,
        λ u n k. other u n k,
      )
]
  where
    other :
        (u : String) → u ≢ m.uuid → has u b.order ≡ false → has u (b.order ++ (m.uuid ∷ [])) ≡ false
    other u n k = ground (arith, has-append u b.order (m.uuid ∷ []))

-- Pushing a message with a new UUID onto a valid buffer returns a valid buffer whose messages, in
-- the order of Iter, are those of a bounded queue after the push: the oldest is dropped if the
-- queue was full, and the new message stands last.
pub push_refines :
    (b : MsgBuffer) (m : Message)
    → IsValid b
    → has m.uuid b.order ≡ false
    → (b' : MsgBuffer) × (push b m ≡ some b')
      × IsValid b'
      × (view b' ≡ push_window b.limit (view b) (some m))
push_refines b m v fresh = let (b', e, v', w, l, keep) = push_lem b m v fresh in (b', e, v', w)
