-- ===== src/Common/Uuids.antt =====
-- Lists of UUIDs: Boolean membership, and lists with no UUID twice.
use Prim.Native.Nat.{ℕ, zero, suc}
use Prim.Native.String.{String}
use mathlib.Core.Path.{◌≡◌, refl}
use mathlib.Core.Bool.{Bool, true, false, ◌||◌}
use mathlib.Core.List.{List, [], ◌∷◌, ◌++◌}
use mathlib.Core.Logic.{◌≢◌, ite}
use mathlib.Core.Option.{some}
use native.Mathlib.Omega.{arith}
use grav.Common.Tests.{string_discrete}
use grav.Common.Lists.{get_elem?, take, drop, set}

unfoldable pub has : String → List String → Bool
has u [] = false
has u (x ∷ xs) = ite (string_discrete x u) true (has u xs)

abbrev pub Distinct : List String → Type 0
Distinct [] = Unit {0}
Distinct (x ∷ xs) = (has x xs ≡ false) × Distinct xs

pub has-append : (u : String) (xs ys : List String) → has u (xs ++ ys) ≡ has u xs || has u ys
unfolding has
has-append u [] ys = refl
has-append u (x ∷ xs) ys = ground (arith, has-append u xs ys)

pub has-take :
    (u : String) (n : ℕ) (xs : List String) → has u xs ≡ false → has u (take n xs) ≡ false
unfolding has
has-take u zero xs h = refl
has-take u (suc n) [] h = refl
has-take u (suc n) (x ∷ xs) h = ground (arith, has-take u n xs)

pub has-drop :
    (u : String) (n : ℕ) (xs : List String) → has u xs ≡ false → has u (drop n xs) ≡ false
unfolding has
has-drop u zero xs h = h
has-drop u (suc n) [] h = refl
has-drop u (suc n) (x ∷ xs) h = ground (arith, has-drop u n xs)

pub has_of_get : (x : String) (xs : List String) (i : ℕ) → get_elem? xs i ≡ some x → has x xs ≡ true
unfolding has
has_of_get x [] i g = ground arith
has_of_get x (y ∷ xs) zero g = ground arith
has_of_get x (y ∷ xs) (suc i) g = ground (arith, has_of_get x xs i g)

-- In a list without repetition an element stands at one place.
pub has_behind :
    (x : String) (xs : List String) (i : ℕ)
    → Distinct xs
    → get_elem? xs i ≡ some x
    → has x (drop (suc i) xs) ≡ false
has_behind x [] i d g = ground arith
has_behind x (y ∷ xs) zero d g = ground arith
has_behind x (y ∷ xs) (suc i) d g = has_behind x xs i d.1 g

pub has_before :
    (x : String) (xs : List String) (i : ℕ)
    → Distinct xs
    → get_elem? xs i ≡ some x
    → has x (take i xs) ≡ false
unfolding has
has_before x [] i d g = ground arith
has_before x (y ∷ xs) zero d g = refl
has_before x (y ∷ xs) (suc i) d g = ground (arith, has_before x xs i d.1 g, has_of_get x xs i g)

-- What `order[i] = u` does to membership, for a new `u`.
pub has-set :
    (u v x : String) (xs : List String) (i : ℕ)
    → Distinct xs
    → has u xs ≡ false
    → get_elem? xs i ≡ some x
    → has v (set xs i u)
      ≡ ite (string_discrete u v) true (ite (string_discrete x v) false (has v xs))
unfolding has
has-set u v x [] i d h g = ground arith
has-set u v x (y ∷ xs) zero d h g = ground arith
has-set u v x (y ∷ xs) (suc i) d h g = ground (arith, has-set u v x xs i d.1, has_of_get x xs i g)

has-set_ne :
    (u v : String) (xs : List String) (i : ℕ)
    → v ≢ u
    → has v xs ≡ false
    → has v (set xs i u) ≡ false
unfolding has
has-set_ne u v [] i n h = refl
has-set_ne u v (y ∷ xs) zero n h = ground arith
has-set_ne u v (y ∷ xs) (suc i) n h = ground (arith, has-set_ne u v xs i n)

pub Distinct-set :
    (u : String) (xs : List String) (i : ℕ) → Distinct xs → has u xs ≡ false → Distinct (set xs i u)
unfolding has
Distinct-set u [] i d h = tt
Distinct-set u (y ∷ xs) zero d h = ground arith
Distinct-set u (y ∷ xs) (suc i) d h = ground (arith, has-set_ne u y xs i, Distinct-set u xs i d.1)

pub Distinct-append :
    (u : String) (xs : List String) → Distinct xs → has u xs ≡ false → Distinct (xs ++ (u ∷ []))
unfolding has
Distinct-append u [] d h = (refl, tt)
Distinct-append u (y ∷ xs) d h =
    (ground (arith, has-append y xs (u ∷ [])), Distinct-append u xs d.1 (ground arith))
