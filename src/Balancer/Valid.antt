-- ===== src/Balancer/Valid.antt =====
-- The index of a balancer, what `Remove` does to the list, and the panic of `Next`.
use grav.Common.{
  ℕ, suc, ◌-◌, ◌≤◌, ◌≡◌, ◌↔◌, String, List, [], ◌∷◌, none, some, arith, ite, string_discrete,
  length, get_elem?, Option-cases, inl, inr, length-append, get_elem?_of_lt, refl,
}
use grav.Balancer.{Balancer, new_balancer, add, without, remove, next}

-- The index is in range, or 0 if the list is empty.
abbrev pub IsValid : Balancer → Type 0
IsValid b = b.index ≤ length b.uuids - 1

pub new_balancer-IsValid : IsValid new_balancer
unfolding new_balancer
new_balancer-IsValid = omega arith

pub add-IsValid : (b : Balancer) (uuid : String) → IsValid b → IsValid (add b uuid)
unfolding add
add-IsValid b uuid v = omega (arith, length-append b.uuids (uuid ∷ []))

-- After Remove the index is in range, or 0 if the list is empty, whatever it was before.
pub remove-IsValid : (b : Balancer) (uuid : String) → IsValid (remove b uuid)
unfolding remove
remove-IsValid b uuid = ground arith

pub next-IsValid : (b b' : Balancer) (uuid : String) → next b ≡ some (uuid, b') → IsValid b'
unfolding next
next-IsValid b b' uuid e = ground arith

empty_of_out : (xs : List String) (i : ℕ) → i ≤ length xs - 1 → get_elem? xs i ≡ none → xs ≡ []
empty_of_out [] i v h = refl
empty_of_out (x ∷ xs) i v h = let (y, g) = get_elem?_of_lt (x ∷ xs) i (omega arith) in cc

-- Next on a balancer whose index is in range, or 0 for an empty list, panics exactly when the list
-- is empty.
pub next-eq-none_iff : (b : Balancer) → IsValid b → (next b ≡ none) ↔ (b.uuids ≡ [])
unfolding next
next-eq-none_iff b v = (
  λ e. elim (Option-cases (get_elem? b.uuids b.index)) [
    | inl out ↦ empty_of_out b.uuids b.index v out
    | inr (x, g) ↦ ground arith
  ],
  λ e. ground arith,
)

-- How often a UUID stands in a list.
abbrev pub count : String → List String → ℕ
count u [] = 0
count u (x ∷ xs) = ite (string_discrete x u) (suc (count u xs)) (count u xs)

count-without :
    (u v : String) (xs : List String)
    → count v (without u xs) ≡ ite (string_discrete u v) 0 (count v xs)
unfolding without
count-without u v [] = ground arith
count-without u v (x ∷ xs) = ground (arith, count-without u v xs)

uuids-remove : (b : Balancer) (u : String) → (remove b u).uuids ≡ without u b.uuids
unfolding remove
uuids-remove b u = ground arith

-- Remove leaves no occurrence of its UUID in the list, and every other UUID as often as before.
pub count-remove :
    (b : Balancer) (u v : String)
    → count v (remove b u).uuids ≡ ite (string_discrete u v) 0 (count v b.uuids)
count-remove b u v = rw (uuids-remove b u) (count-without u v b.uuids)
