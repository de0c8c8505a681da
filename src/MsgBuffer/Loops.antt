-- ===== src/MsgBuffer/Loops.antt =====
-- `Iter` and `Next` against the order of the slice.
use grav.Common.{
  ℕ, zero, suc, ◌+◌, ◌≤◌, ◌<◌, ◌≡◌, ◌⊎◌, inr, String, [], ◌∷◌, map, Option, none, some, arith, ite,
  ℕ_discrete, length, get_elem?, get_elem?_of_lt, advance, advance-lt, walk, rotate, walk-rotate,
  turns, turns_lem, lookup, refl, ◌≢◌, if_neg, ap, ◌∙◌,
}
use grav.Message.{Message}
use grav.MsgBuffer.{MsgBuffer, next, nexts, iter_loop, iter}

abbrev pub message_at : MsgBuffer → String → Option Message
message_at b u = lookup u b.msgs

-- How many rounds the loop of `Iter` has left at index `i`.
abbrev Left : MsgBuffer → ℕ → ℕ → Type 0
Left b i k =
    ((i + k ≡ b.start_index) × (0 < k))
    ⊎ ((i + k ≡ length b.order + b.start_index) × (b.start_index ≤ i))

module _ (b : MsgBuffer) (inside : b.start_index < length b.order) where
  iter_step :
      (k i : ℕ) (u : String)
      → get_elem? b.order i ≡ some u
      → iter_loop (suc k) b i
        ≡ ite
            (ℕ_discrete (advance (length b.order) i) b.start_index)
            (some (message_at b u ∷ []))
            (elim (iter_loop k b (advance (length b.order) i)) [
              | none ↦ none
              | some msgs ↦ some (message_at b u ∷ msgs)
            ])
  unfolding iter_loop
  iter_step k i u g = ground arith

  Left-next :
      (k i : ℕ)
      → i < length b.order
      → Left b i (suc k)
      → advance (length b.order) i ≢ b.start_index
      → Left b (advance (length b.order) i) k
  unfolding advance
  Left-next k i h l n = ground arith

  Left-last :
      (k i : ℕ)
      → i < length b.order
      → Left b i (suc k)
      → advance (length b.order) i ≡ b.start_index
      → k ≡ 0
  unfolding advance
  Left-last k i h l e = ground arith

  iter_loop_lem :
      (k i : ℕ)
      → i < length b.order
      → Left b i k
      → iter_loop k b i ≡ some (map (message_at b) (walk b.order i k))
  unfolding walk
  iter_loop_lem zero i h l = absurd (omega arith)
  iter_loop_lem (suc k) i h l =
      let (u, g) = get_elem?_of_lt b.order i h in
      elim (ℕ_discrete (advance (length b.order) i) b.start_index) [
        | yes e ↦ ground (arith, g, iter_step k i u g, Left-last k i h l e)
        | no n ↦ ground (
          arith,
          g,
          iter_step k i u g,
          iter_loop_lem k (advance (length b.order) i) (advance-lt (length b.order) i h)
              (Left-next k i h l n),
        )
      ]

  -- `Iter` calls msgFunc once for each UUID of the buffer, oldest first, and ends.
  pub iter_lem : iter b ≡ some (map (message_at b) (rotate b.start_index b.order))
  unfolding iter
  iter_lem = rw (if_neg (ℕ_discrete (length b.order) 0) (λ e. omega arith)) (
      iter_loop_lem (length b.order) b.start_index inside (inr (omega arith, omega arith))
      ∙ ap (λ us. some (map (message_at b) us)) (walk-rotate b.order b.start_index inside))

module _ (b : MsgBuffer) (inside : b.next_index < length b.order) where
  next_lem :
      (u : String)
      → get_elem? b.order b.next_index ≡ some u
      → next b
        ≡ some (message_at b u, record b { next_index = advance (length b.order) b.next_index })
  unfolding next
  next_lem u g = ground arith

-- `n` calls of `Next` read `n` UUIDs going round from the next index on.
nexts-walk :
    (n : ℕ) (b : MsgBuffer)
    → b.next_index < length b.order
    → nexts n b
      ≡ some (
        map (message_at b) (walk b.order b.next_index n),
        record b { next_index = turns (length b.order) b.next_index n },
      )
unfolding nexts walk turns
nexts-walk zero b h = refl
nexts-walk (suc n) b h =
    let (u, g) = get_elem?_of_lt b.order b.next_index h in
    ground (
      arith,
      g,
      next_lem b h u g,
      nexts-walk n (record b { next_index = advance (length b.order) b.next_index })
          (advance-lt (length b.order) b.next_index h),
    )

-- As many calls of MsgBuffer.Next as the buffer has entries, from a next index in range, return the
-- entries of all UUIDs of the order once, from the next index on and round the end, and leave the
-- buffer as it was.
pub next_cycle :
    (b : MsgBuffer)
    → b.next_index < length b.order
    → nexts (length b.order) b ≡ some (map (message_at b) (rotate b.next_index b.order), b)
next_cycle b h = ground (
  arith,
  nexts-walk (length b.order) b h,
  walk-rotate b.order b.next_index h,
  turns_lem (length b.order) b.next_index h,
)
