-- ===== src/MsgBuffer/Replay.antt =====
-- What `Iter` replays after a run of pushes: the most recent messages, oldest first.
use grav.Common.{
  ℕ, suc, ◌+◌, ◌-◌, ◌≤◌, ◌<◌, ◌≡◌, ◌≢◌, refl, ap, sym, ◌∙◌, String, List, [], ◌∷◌, ◌++◌, map, some,
  arith, if_pos, if_neg, ℕ_discrete, length, drop, drop-map, drop-drop, drop-append_of_le,
  nil_of_length, ap₂, has, Distinct, All, false, length-append, length-map, append_assoc,
  append-nil, length-drop,
}
use grav.Message.{Message}
use grav.MsgBuffer.{MsgBuffer, new_msg_buffer, push_all, iter}
use grav.MsgBuffer.Valid.{IsValid, new_msg_buffer-IsValid}
use grav.MsgBuffer.Loops.{iter_lem}
use grav.MsgBuffer.Recent.{view, length-view, push_window, push_lem}

-- `Iter` on a valid buffer ends and visits exactly the view.
pub iter-view : (b : MsgBuffer) → IsValid b → iter b ≡ some (view b)
unfolding iter
iter-view b v = elim (ℕ_discrete (length b.order) 0) [
  | yes e ↦
      rw (if_pos (ℕ_discrete (length b.order) 0) e)
        (ap some (sym (nil_of_length (view b) (length-view b ∙ e))))
  | no n ↦ iter_lem b (omega (arith, v.start_in))
]

module _ {ℓ} {A : Type ℓ} (limit : ℕ) where
  pub push_windows : List A → List A → List A
  push_windows q [] = q
  push_windows q (a ∷ as') = push_windows (push_window limit q a) as'

  -- One push keeps the last `limit` entries of what has been pushed.
  push_window-append :
      (q : List A) (a : A) (rest : List A)
      → 0 < limit
      → length q ≤ limit
      → (length (push_window limit q a) ≤ limit)
        × (drop
              (length (push_window limit q a) + length rest - limit)
              (push_window limit q a ++ rest)
            ≡ drop (length q + suc (length rest) - limit) (q ++ (a ∷ rest)))
  push_window-append q a rest p h = elim (ℕ_discrete (length q) limit) [
    | yes full ↦ rw (if_pos (ℕ_discrete (length q) limit) full) (
        let l : length (drop 1 q ++ (a ∷ [])) ≡ limit =
          omega (arith, length-append (drop 1 q) (a ∷ []), length-drop 1 q) in
        (
          omega arith,
          ap₂ drop (omega arith) (
                append_assoc (drop 1 q) (a ∷ []) rest
                ∙ sym (drop-append_of_le 1 q (a ∷ rest) (omega arith)))
              ∙ drop-drop (length rest) 1 (q ++ (a ∷ rest))
              ∙ ap (λ j. drop j (q ++ (a ∷ rest))) (omega arith),
        ))
    | no room ↦ rw (if_neg (ℕ_discrete (length q) limit) room) (
        let l = length-append q (a ∷ []) in
        (omega arith, ap₂ drop (omega arith) (append_assoc q (a ∷ []) rest)))
  ]

  push_windows_lem :
      (q as' : List A)
      → 0 < limit
      → length q ≤ limit
      → push_windows q as' ≡ drop (length q + length as' - limit) (q ++ as')
  unfolding push_windows
  push_windows_lem q [] p h =
      let e : 0 ≡ length q + 0 - limit = omega arith in
      sym (append-nil q) ∙ ap (λ j. drop j (q ++ [])) e
  push_windows_lem q (a ∷ as') p h =
      let (l, e) = push_window-append q a as' p h in
      push_windows_lem (push_window limit q a) as' p l ∙ e

abbrev pub uuids : List Message → List String
uuids = map (λ m. m.uuid)

-- A run whose UUIDs are new stays new behind its first push.
still_new :
    (b b' : MsgBuffer) (u : String) (ms : List Message)
    → ((w : String) → w ≢ u → has w b.order ≡ false → has w b'.order ≡ false)
    → has u (uuids ms) ≡ false
    → All (λ m. has m.uuid b.order ≡ false) ms
    → All (λ m. has m.uuid b'.order ≡ false) ms
unfolding has
still_new b b' u [] keep h f = tt
still_new b b' u (m ∷ ms) keep h f =
    (keep m.uuid (ground arith) f.0, still_new b b' u ms keep (ground arith) f.1)

All-new :
    (limit : ℕ) (ms : List Message) → All (λ m. has m.uuid (new_msg_buffer limit).order ≡ false) ms
unfolding new_msg_buffer has
All-new limit [] = tt
All-new limit (m ∷ ms) = (refl, All-new limit ms)

push_all_refines :
    (ms : List Message) (b : MsgBuffer)
    → IsValid b
    → Distinct (uuids ms)
    → All (λ m. has m.uuid b.order ≡ false) ms
    → (b' : MsgBuffer) × (push_all b ms ≡ some b')
      × IsValid b'
      × (view b' ≡ push_windows b.limit (view b) (map some ms))
unfolding push_all push_windows
push_all_refines [] b v d f = (b, refl, v, refl)
push_all_refines (m ∷ ms) b v d f =
    let (b', e, v', w, l, keep) = push_lem b m v f.0 in
    let (b'', e', v'', w') =
      push_all_refines ms b' v' d.1 (still_new b b' m.uuid ms keep d.0 f.1) in
    (b'', rw (e, push_all) e', v'', w' ∙ ap₂ (λ n q. push_windows n q (map some ms)) l w)

-- Messages with different UUIDs pushed onto a new buffer with a positive limit are all taken, and
-- Iter then ends and visits exactly the last `limit` of them, oldest first.
pub iter-push_all :
    (limit : ℕ) (ms : List Message)
    → 0 < limit
    → Distinct (uuids ms)
    → (b : MsgBuffer) × (push_all (new_msg_buffer limit) ms ≡ some b)
      × (iter b ≡ some (map some (drop (length ms - limit) ms)))
unfolding new_msg_buffer
iter-push_all limit ms p d =
    let (b, e, v, w) =
      push_all_refines ms (new_msg_buffer limit) (new_msg_buffer-IsValid limit p) d
        (All-new limit ms) in
    (
      b,
      e,
      iter-view b v
          ∙ ap some (
              w
              ∙ push_windows_lem limit [] (map some ms) p (omega arith)
              ∙ ap (λ n. drop (0 + n - limit) (map some ms)) (length-map ms some)
              ∙ drop-map some (0 + length ms - limit) ms
              ∙ ap (λ n. map some (drop n ms)) (omega arith)),
    )
