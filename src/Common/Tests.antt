-- ===== src/Common/Tests.antt =====
-- Conditionals, decisions on texts, and chains of Option, whose `none` is a Go run-time panic.
use Prim.Native.String.{String}
use text.Mathlib.Text.{◌==◌ as str_eq}
use text.Mathlib.TextEquality.{eq_iff}
use mathlib.Core.Path.{◌≡◌, refl}
use mathlib.Core.Logic.{◌↔◌, ◌⊎◌, inl, inr}
use mathlib.Core.Bool.{Bool, true, false, false≢true}
use mathlib.Core.Option.{Option, none, some}

infix 1 if◌then◌else◌
abbrev pub if◌then◌else◌ {ℓ} : {A : Type ℓ} → Bool → A → A → A
if true then x else y = x
if false then x else y = y

-- To split on a computed value and keep the equation.
pub Bool-cases : (b : Bool) → (b ≡ true) ⊎ (b ≡ false)
Bool-cases true = inl refl
Bool-cases false = inr refl

pub Option-cases {ℓ} : {A : Type ℓ} (o : Option A) → (o ≡ none) ⊎ ((a : A) × (o ≡ some a))
Option-cases none = inl refl
Option-cases (some a) = inr (a, refl)

decide_by : {P : Type 0} (b : Bool) → (b ≡ true) ↔ P → Dec P
decide_by true h = yes (h.0 refl)
decide_by false h = no (λ p. false≢true (h.1 p))

unfoldable pub string_discrete : Discrete String
unfolding decide_by
string_discrete s t = decide_by (str_eq s t) (eq_iff s t)

infixl 5 ◌>>=◌ ◌>>◌
abbrev pub ◌>>=◌ {ℓ κ} : {A : Type ℓ} {B : Type κ} → Option A → (A → Option B) → Option B
none >>= f = none
some a >>= f = f a

abbrev pub ◌>>◌ {ℓ κ} : {A : Type ℓ} {B : Type κ} → Option A → Option B → Option B
m >> k = m >>= λ _. k

abbrev pub is_some {ℓ} : {A : Type ℓ} → Option A → Bool
is_some none = false
is_some (some a) = true

-- What a chain returns, it returns with parts that return as much.
pub bind_mono2 {ℓ κ} :
    {A : Type ℓ} {B : Type κ} (f g : A → Option B) {b : B} (m m' : Option A)
    → ((a : A) → m ≡ some a → m' ≡ some a)
    → ((a : A) → f a ≡ some b → g a ≡ some b)
    → (m >>= f) ≡ some b
    → (m' >>= g) ≡ some b
bind_mono2 f g none m' k h e = cc
bind_mono2 f g (some a) m' k h e = rw (k a refl) (h a e)

pub bind_mono {ℓ κ} :
    {A : Type ℓ} {B : Type κ} (f g : A → Option B) {b : B} (m : Option A)
    → ((a : A) → f a ≡ some b → g a ≡ some b)
    → (m >>= f) ≡ some b
    → (m >>= g) ≡ some b
bind_mono f g m h e = bind_mono2 f g m m (λ a l. l) h e
