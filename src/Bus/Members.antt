-- ===== src/Bus/Members.antt =====
-- Members of a ring, and which of them the next status check lets stay.
use grav.Common.{ℕ, ◌≡◌, ◌≢◌, sym, ◌∙◌, refl, List, [], ◌∷◌, ◌++◌, ◌⊎◌, inl, inr, All}
use grav.Pool.{PrepareError}
use grav.Pool.Ring.{Member, Absent}
use grav.Pool.Prepare.{stays, goes, fate, status}

abbrev pub In : Member → List Member → Type 0
In m [] = ⊥
In m (x ∷ xs) = (x ≡ m) ⊎ In m xs

abbrev pub HasId : ℕ → List Member → Type 0
HasId a [] = ⊥
HasId a (x ∷ xs) = (x.id ≡ a) ⊎ HasId a xs

-- The connection answers its status check with nothing that makes the bus delete it.
abbrev pub Stays : Member → Type 0
Stays m = fate (status m.body) ≡ stays

pub In-append_left : (m : Member) (xs ys : List Member) → In m xs → In m (xs ++ ys)
In-append_left m (x ∷ xs) ys (inl e) = inl e
In-append_left m (x ∷ xs) ys (inr i) = inr (In-append_left m xs ys i)
In-append_left m [] ys i = absurd i

pub In-append_cases : (m : Member) (xs ys : List Member) → In m (xs ++ ys) → In m xs ⊎ In m ys
In-append_cases m [] ys i = inr i
In-append_cases m (x ∷ xs) ys (inl e) = inl (inl e)
In-append_cases m (x ∷ xs) ys (inr i) = elim (In-append_cases m xs ys i) [
  | inl j ↦ inl (inr j)
  | inr j ↦ inr j
]

pub In-append_right : (m : Member) (xs ys : List Member) → In m ys → In m (xs ++ ys)
In-append_right m [] ys i = i
In-append_right m (x ∷ xs) ys i = inr (In-append_right m xs ys i)

-- The status check makes the bus delete the connection.
abbrev pub Gone : Member → Type 0
Gone m = (g : PrepareError) × (fate (status m.body) ≡ goes g)

-- To prove a statement of every element, prove it of each.
pub All-of_In {κ} :
    (P : Member → Type κ) (ms : List Member) → ((m : Member) → In m ms → P m) → All P ms
All-of_In P [] f = tt
All-of_In P (m ∷ ms) f = (f m (inl refl), All-of_In P ms (λ x i. f x (inr i)))

-- No member of the ring has an ID that is absent from it.
pub Absent-ne : (a c : ℕ) (ms : List Member) → Absent a ms → HasId c ms → a ≢ c
Absent-ne a c [] n h = absurd h
Absent-ne a c (m ∷ ms) n (inl e) = λ k. n.0 (e ∙ sym k)
Absent-ne a c (m ∷ ms) n (inr h) = Absent-ne a c ms n.1 h
