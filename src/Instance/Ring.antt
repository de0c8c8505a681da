-- ===== src/Instance/Ring.antt =====
-- The hub's member of the ring: it has put in nothing but successes, and nothing has failed.
use grav.Common.{
  ℕ, ◌≡◌, ◌≢◌, refl, sym, ap, ◌∙◌, subst, arith, List, [], ◌∷◌, ◌++◌, Option, inl, inr, ◌⊎◌, All,
  All-append, dec_le,
}
use grav.Message.{Message}
use grav.PodConnection.{Feedback, msg_success, msg_replay, msg_disconnect, failed_msg}
use grav.PodConnection.Status.{status_of, failures}
use grav.Pool.Ring.{Member, Body, DistinctIds}
use grav.Pool.Prepare.{stays, goes, fate}
use grav.Pool.Feed.{fed, fed_all}
use grav.Bus.Members.{In, HasId, Stays, Gone}
use grav.Bus.Lap.{got, ready}
use grav.Bus.{MessageBus}
use grav.Bus.Everyone.{Got, Handled}
use grav.Pool.{PrepareError}

abbrev pub IsSuccess : Feedback → Type 0
IsSuccess msg_success = Unit {0}
IsSuccess msg_replay = ⊥
IsSuccess msg_disconnect = ⊥
IsSuccess (failed_msg msg) = ⊥

-- The body of a connection whose pod has never failed, asked for a replay, or disconnected.
pub record IsClean (x : Body) : Type 0 where
  pub nothing_failed : x.failed ≡ []
  pub successes : All IsSuccess x.feedback_chan

-- A ring with a clean member of the ID `a`.
pub record Keeps (a : ℕ) (ring : List Member) : Type 0 where
  pub keeper : Member
  pub inside : In keeper ring
  pub at : keeper.id ≡ a
  pub clean : IsClean keeper.body

no_wishes :
    (fs : List Feedback) → All IsSuccess fs → (failures fs ≡ []) × (fate (status_of fs []) ≡ stays)
unfolding dec_le
no_wishes [] h = (refl, refl)
no_wishes (msg_success ∷ fs) h = ground (arith, no_wishes fs h.1)
no_wishes (msg_replay ∷ fs) h = absurd h.0
no_wishes (msg_disconnect ∷ fs) h = absurd h.0
no_wishes (failed_msg m ∷ fs) h = absurd h.0

pub successes-failures : (fs : List Feedback) → All IsSuccess fs → failures fs ≡ []
successes-failures fs h = (no_wishes fs h).0

pub clean-Stays : (m : Member) → IsClean m.body → Stays m
clean-Stays m c =
    subst (λ f. fate (status_of m.body.feedback_chan f) ≡ stays) (sym c.nothing_failed)
      (no_wishes m.body.feedback_chan c.successes).1

pub IsClean-got : (msg : Message) (m : Member) → IsClean m.body → IsClean (got msg m).body
IsClean-got msg m c = record { nothing_failed = c.nothing_failed; successes = c.successes }

pub IsClean-ready :
    (msgs : List (Option Message)) (m : Member) → IsClean m.body → IsClean (ready msgs m).body
IsClean-ready msgs m c =
    let drained : (ready msgs m).body.feedback_chan ≡ [] = ground arith in
    record {
      nothing_failed =
          ground (arith, c.nothing_failed, (no_wishes m.body.feedback_chan c.successes).0);
      successes = subst (All IsSuccess) (sym drained) tt;
    }

pub All-In {κ} : (P : Member → Type κ) (ms : List Member) (m : Member) → All P ms → In m ms → P m
All-In P [] m h i = absurd i
All-In P (x ∷ ms) m h (inl e) = subst P e h.0
All-In P (x ∷ ms) m h (inr i) = All-In P ms m h.1 i

-- The member of an ID, with what holds of every member.
pub find_id {κ} :
    (P : Member → Type κ) (a : ℕ) (ms : List Member)
    → All P ms
    → HasId a ms
    → (m : Member) × In m ms × (m.id ≡ a) × P m
find_id P a [] h i = absurd i
find_id P a (x ∷ ms) h (inl e) = (x, inl refl, e, h.0)
find_id P a (x ∷ ms) h (inr i) = let (m, j, e, p) = find_id P a ms h.1 i in (m, inr j, e, p)

In-unique :
    (ms : List Member) (x y : Member) → DistinctIds ms → In x ms → In y ms → x.id ≡ y.id → x ≡ y
In-unique [] x y d i j e = absurd i
In-unique (m ∷ ms) x y d (inl p) (inl q) e = sym p ∙ q
In-unique (m ∷ ms) x y d (inl p) (inr j) e =
    absurd (All-In (λ z. z.id ≢ m.id) ms y d.0 j (sym e ∙ ap (λ (z : Member). z.id) (sym p)))
In-unique (m ∷ ms) x y d (inr i) (inl q) e =
    absurd (All-In (λ z. z.id ≢ m.id) ms x d.0 i (e ∙ ap (λ (z : Member). z.id) (sym q)))
In-unique (m ∷ ms) x y d (inr i) (inr j) e = In-unique ms x y d.1 i j e

-- A clean member stays, is sent the message, and is clean afterwards.
pub Handled-Keeps :
    (a : ℕ) (old ring : List Member) (msg : Message) (bus : MessageBus)
    → DistinctIds old
    → Keeps a old
    → Handled old msg bus ring
    → Keeps a ring
Handled-Keeps a old ring msg bus d k h =
    let kept = All-In (λ m. Gone m ⊎ HasId m.id ring) old k.keeper h.kept k.inside in
    elim kept [
      | inl (g, gone) ↦ absurd (stays_ne_goes g (sym (clean-Stays k.keeper k.clean) ∙ gone))
      | inr has ↦
          let (m, i, e, (b, j, o)) =
            find_id (Got h.replay msg old) a ring h.everyone (subst (λ x. HasId x ring) k.at has) in
          record { keeper = m; inside = i; at = e; clean = clean_of m b e j o }
    ]
  where
    stays_ne_goes : (g : PrepareError) → stays ≢ goes g
    stays_ne_goes g e = cc

    found : (b : Member) → In b old → b.id ≡ a → IsClean b.body
    found b j e =
        subst (λ (x : Member). IsClean x.body)
          (In-unique old k.keeper b d k.inside j (k.at ∙ sym e)) k.clean

    clean_of :
        (m b : Member)
        → m.id ≡ a
        → In b old
        → (m ≡ got msg b) ⊎ (m ≡ got msg (ready h.replay b))
        → IsClean m.body
    clean_of m b e j (inl o) =
        let keeper = found b j (ap (λ (x : Member). x.id) (sym o) ∙ e) in
        subst (λ (x : Member). IsClean x.body) (sym o) (IsClean-got msg b keeper)
    clean_of m b e j (inr o) =
        let keeper = found b j (ap (λ (x : Member). x.id) (sym o) ∙ e) in
        subst (λ (x : Member). IsClean x.body) (sym o)
          (IsClean-got msg (ready h.replay b) (IsClean-ready h.replay b keeper))

In-fed_all :
    (c : ℕ) (fs : List Feedback) (m : Member) (ms : List Member)
    → In m ms
    → In (fed c fs m) (fed_all c fs ms)
In-fed_all c fs m [] i = absurd i
In-fed_all c fs m (x ∷ ms) (inl e) = inl (ap (fed c fs) e)
In-fed_all c fs m (x ∷ ms) (inr i) = inr (In-fed_all c fs m ms i)

-- What other pods report does not touch it.
pub fed_all-Keeps :
    (a c : ℕ) (fs : List Feedback) (ring : List Member)
    → c ≢ a
    → Keeps a ring
    → Keeps a (fed_all c fs ring)
fed_all-Keeps a c fs ring n k =
    let same : fed c fs k.keeper ≡ k.keeper = ground (arith, k.at) in
    record {
      keeper = k.keeper;
      inside = subst (λ m. In m (fed_all c fs ring)) same (In-fed_all c fs k.keeper ring k.inside);
      at = k.at;
      clean = k.clean;
    }

-- Its own successes keep it clean.
pub fed_all-Keeps_self :
    (a : ℕ) (fs : List Feedback) (ring : List Member)
    → All IsSuccess fs
    → Keeps a ring
    → Keeps a (fed_all a fs ring)
fed_all-Keeps_self a fs ring h k =
    let grown = record k.keeper {
      body = record k.keeper.body { feedback_chan = k.keeper.body.feedback_chan ++ fs };
    } in
    let same : fed a fs k.keeper ≡ grown = ground (arith, k.at) in
    record {
      keeper = grown;
      inside = subst (λ m. In m (fed_all a fs ring)) same (In-fed_all a fs k.keeper ring k.inside);
      at = k.at;
      clean = record {
        nothing_failed = k.clean.nothing_failed;
        successes = All-append IsSuccess k.keeper.body.feedback_chan fs k.clean.successes h;
      };
    }
