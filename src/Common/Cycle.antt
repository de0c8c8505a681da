-- ===== src/Common/Cycle.antt =====
-- An index that goes round a slice, as in MsgBuffer.Next, MsgBuffer.Iter and Balancer.Next.
use Prim.Native.Nat.{ℕ, zero, suc, ◌+◌, ◌-◌, ◌<◌}
use Prim.Native.Nat.add
use mathlib.Core.Path.{◌≡◌, ap, sym, ◌∙◌}
use mathlib.Core.List.{List, [], ◌∷◌, ◌++◌, append-nil, append_assoc}
use mathlib.Core.Logic.{ite}
use mathlib.Core.Option.{none, some}
use native.Mathlib.Omega.{arith}
use native.Mathlib.Decide.{ℕ_discrete}
use grav.Common.Lists.{
  length, get_elem?, take, drop, get_elem?_of_lt, drop-cons_of_get, take-append_of_get, drop_of_le,
}

-- The index behind `i` in a slice of `n` elements.
unfoldable pub advance : ℕ → ℕ → ℕ
advance n i = ite (ℕ_discrete i (n - 1)) 0 (i + 1)

pub advance-lt : (n i : ℕ) → i < n → advance n i < n
unfolding advance
advance-lt n i h = ground arith

module _ {ℓ} {A : Type ℓ} where
  -- The slice read from index `i` on, once round.
  abbrev pub rotate : ℕ → List A → List A
  rotate i xs = drop i xs ++ take i xs

  -- The `k` elements from index `i` on, going round.
  unfoldable pub walk : List A → ℕ → ℕ → List A
  walk xs i zero = []
  walk xs i (suc k) = elim (get_elem? xs i) [
    | none ↦ []
    | some x ↦ x ∷ walk xs (advance (length xs) i) k
  ]

  -- One step that stays inside, and the one that goes round.
  walk_inside :
      (xs : List A) (i k : ℕ) (x : A)
      → get_elem? xs i ≡ some x
      → i + 1 < length xs
      → walk xs i (suc k) ≡ x ∷ walk xs (i + 1) k
  unfolding walk advance
  walk_inside xs i k x g h = ground arith

  walk_round :
      (xs : List A) (i k : ℕ) (x : A)
      → get_elem? xs i ≡ some x
      → i + 1 ≡ length xs
      → walk xs i (suc k) ≡ x ∷ walk xs 0 k
  unfolding walk advance
  walk_round xs i k x g h = ground arith

  walk-drop :
      (xs : List A) (d i k n : ℕ)
      → i + d ≡ length xs
      → 0 < d
      → n ≡ d + k
      → walk xs i n ≡ drop i xs ++ walk xs 0 k
  walk-drop xs zero i k n e h p = absurd (omega arith)
  walk-drop xs (suc d) i k zero e h p = absurd (omega arith)
  walk-drop xs (suc zero) i k (suc n) e h p =
      let (x, g) = get_elem?_of_lt xs i (omega arith) in
      let m : n ≡ k = omega arith in
      ground (
        arith,
        walk_round xs i n x g (omega arith),
        drop-cons_of_get xs i x g,
        drop_of_le (i + 1) xs (omega arith),
        m,
      )
  walk-drop xs (suc (suc d)) i k (suc n) e h p =
      let (x, g) = get_elem?_of_lt xs i (omega arith) in
      walk_inside xs i n x g (omega arith)
      ∙ ap (◌∷◌ x) (walk-drop xs (suc d) (i + 1) k n (omega arith) (omega arith) (omega arith))
      ∙ ap (λ t. t ++ walk xs 0 k) (sym (drop-cons_of_get xs i x g))

  walk-take :
      (xs : List A) (n i : ℕ) → i + n < length xs → take i xs ++ walk xs i n ≡ take (i + n) xs
  unfolding walk
  walk-take xs zero i h = append-nil (take i xs) ∙ ap (λ k. take k xs) (omega arith)
  walk-take xs (suc n) i h =
      let (x, g) = get_elem?_of_lt xs i (omega arith) in
      ap (λ t. take i xs ++ t) (walk_inside xs i n x g (omega arith))
      ∙ sym (append_assoc (take i xs) (x ∷ []) (walk xs (i + 1) n))
      ∙ ap (λ t. t ++ walk xs (i + 1) n) (sym (take-append_of_get xs i x g))
      ∙ walk-take xs n (i + 1) (omega arith)
      ∙ ap (λ k. take k xs) (omega arith)

  -- `length xs` steps read every element once, in order, from `i` on.
  pub walk-rotate : (xs : List A) (i : ℕ) → i < length xs → walk xs i (length xs) ≡ rotate i xs
  walk-rotate xs i h =
      walk-drop xs (length xs - i) i i (length xs) (omega arith) (omega arith) (omega arith)
      ∙ ap (λ t. drop i xs ++ t)
          (walk-take xs i 0 (omega arith) ∙ ap (λ k. take k xs) (omega arith))

-- The index after `k` steps.
unfoldable pub turns : ℕ → ℕ → ℕ → ℕ
turns n i zero = i
turns n i (suc k) = turns n (advance n i) k

turns_inside : (n i k : ℕ) → i + k < n → turns n i k ≡ i + k
unfolding turns advance
turns_inside n i zero h = omega arith
turns_inside n i (suc k) h = ground (arith, turns_inside n (i + 1) k)

turns_round : (n i d k m : ℕ) → i + suc d ≡ n → m ≡ suc d + k → turns n i m ≡ turns n 0 k
unfolding turns advance
turns_round n i d k zero h p = absurd (omega arith)
turns_round n i zero k (suc m) h p = let e : m ≡ k = omega arith in ground (arith, e)
turns_round n i (suc d) k (suc m) h p = ground (arith, turns_round n (i + 1) d k m)

-- Once round, the index is where it was.
pub turns_lem : (n i : ℕ) → i < n → turns n i n ≡ i
turns_lem n i h =
    turns_round n i (n - i - 1) i n (omega arith) (omega arith)
    ∙ turns_inside n 0 i (omega arith)
    ∙ add.zero i
