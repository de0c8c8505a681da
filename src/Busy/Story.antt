-- ===== src/Busy/Story.antt =====
-- What happens to the members of the ring while a message goes round.
use grav.Common.{
  ℕ, suc, ◌≡◌, ◌≢◌, refl, sym, ◌∙◌, subst, if_pos, if_neg, List, [], ◌∷◌, ◌++◌, Option, some, inl,
  inr, ◌⊎◌, All, All-append, ℕ_discrete, All-map,
}
use grav.Message.{Message}
use grav.PodConnection.{Feedback}
use grav.Pool.{PrepareError}
use grav.Pool.Ring.{Body, Member}
use grav.Pool.Prepare.{stays, goes, fate, status, prepared}
use grav.Pool.Refines.{fresh_member}
use grav.Pool.Feed.{grown, fed, fed_all}
use grav.Bus.Members.{In, HasId, Stays, Gone}
use grav.Bus.Lap.{got, ready}
use grav.Instance.Ring.{IsSuccess, IsClean, IsClean-got, IsClean-ready, clean-Stays}

-- From a body to another: it is sent the message as often as the number says, and in any order
-- feedback comes in and status checks let it stay.
pub data Story (msgs : List (Option Message)) (msg : Message) (b : Body) : ℕ → Body → Type 0 where
  begun : Story msgs msg b 0 b
  reported :
      {n : ℕ} {x : Body} (fs : List Feedback)
      → Story msgs msg b n x
      → Story msgs msg b n (record x { feedback_chan = x.feedback_chan ++ fs })
  sent :
      {n : ℕ} {x : Body}
      → Story msgs msg b n x
      → Story msgs msg b (suc n) (record x { sends = x.sends ++ (some msg ∷ []) })
  readied :
      {n : ℕ} {x : Body}
      → Story msgs msg b n x
      → fate (status x) ≡ stays
      → Story msgs msg b n (prepared msgs x)

-- A connection of a pod that has connected meanwhile.
abbrev pub IsNew : Member → Type 0
IsNew b = (fs : List Feedback) × (b ≡ fresh_member b.id fs)

module _ (msgs : List (Option Message)) (msg : Message) (hub : ℕ) (old : List Member) where
  -- A member that comes from the old ring or is new, and was sent the message `n` times since. That
  -- of the hub is clean.
  pub record Told (n : ℕ) (m : Member) : Type 0 where
    pub origin : Member
    pub from : In origin old ⊎ IsNew origin
    pub same : origin.id ≡ m.id
    pub story : Story msgs msg origin.body n m.body
    pub clean : m.id ≡ hub → IsClean m.body

  -- A status check sent the connection of this ID away.
  abbrev pub Removed : ℕ → Type 0
  Removed a = (n : ℕ) × (d : Member) × (d.id ≡ a) × Told n d × Gone d

  -- The hub's connection is in the ring, and so is every old one that was not sent away.
  pub record Track (ring : List Member) : Type 0 where
    pub hub_inside : HasId hub ring
    pub kept : All (λ b. HasId b.id ring ⊎ Removed b.id) old

  pub Told-got : {n : ℕ} (m : Member) → Told n m → Told (suc n) (got msg m)
  Told-got m t = record {
    origin = t.origin;
    from = t.from;
    same = t.same;
    story = sent t.story;
    clean = λ e. IsClean-got msg m (t.clean e);
  }

  pub Told-ready : {n : ℕ} (m : Member) → Stays m → Told n m → Told n (ready msgs m)
  Told-ready m s t = record {
    origin = t.origin;
    from = t.from;
    same = t.same;
    story = readied t.story s;
    clean = λ e. IsClean-ready msgs m (t.clean e);
  }

  Told-grown :
      (n : ℕ) (a : ℕ) (fs : List Feedback) (m : Member)
      → m.id ≡ a
      → (a ≡ hub → All IsSuccess fs)
      → Told n m
      → Told n (grown a fs m)
  Told-grown n a fs m e h t = record {
    origin = t.origin;
    from = t.from;
    same = t.same;
    story = reported fs t.story;
    clean = λ k. record {
      nothing_failed = (t.clean k).nothing_failed;
      successes =
          All-append IsSuccess m.body.feedback_chan fs (t.clean k).successes (h (sym e ∙ k));
    };
  }

  -- The hub reports nothing but successes.
  pub Told-fed :
      (n : ℕ) (a : ℕ) (fs : List Feedback) (m : Member)
      → (a ≡ hub → All IsSuccess fs)
      → Told n m
      → Told n (fed a fs m)
  Told-fed n a fs m h t = elim (ℕ_discrete m.id a) [
    | yes e ↦
        subst (Told n) (sym (if_pos (ℕ_discrete m.id a) e (grown a fs m) m))
          (Told-grown n a fs m e h t)
    | no k ↦ subst (Told n) (sym (if_neg (ℕ_discrete m.id a) k (grown a fs m) m)) t
  ]

  pub Told-fed_all :
      (n : ℕ) (a : ℕ) (fs : List Feedback) (ms : List Member)
      → (a ≡ hub → All IsSuccess fs)
      → All (Told n) ms
      → All (Told n) (fed_all a fs ms)
  Told-fed_all n a fs [] h t = tt
  Told-fed_all n a fs (m ∷ ms) h t = (Told-fed n a fs m h t.0, Told-fed_all n a fs ms h t.1)

  pub Told-fresh : (a : ℕ) (fs : List Feedback) → a ≢ hub → Told 0 (fresh_member a fs)
  Told-fresh a fs n = record {
    origin = fresh_member a fs;
    from = inr (fs, refl);
    same = refl;
    story = begun;
    clean = λ e. absurd (n e);
  }

  -- What is in the ring stays there.
  pub Track-mono :
      (ring ring' : List Member)
      → ((a : ℕ) → HasId a ring → HasId a ring')
      → Track ring
      → Track ring'
  Track-mono ring ring' f t = record {
    hub_inside = f hub t.hub_inside;
    kept = All-map _ _ old (λ b o. elim o [ inl h ↦ inl (f b.id h) | inr r ↦ inr r ]) t.kept;
  }

  stays_ne_goes : (g : PrepareError) → stays ≢ goes g
  stays_ne_goes g e = cc

  -- Another one than the hub's is sent away.
  pub Gone-ne : {n : ℕ} (d : Member) → Told n d → Gone d → d.id ≢ hub
  Gone-ne d t (g, h) e = stays_ne_goes g (sym (clean-Stays d (t.clean e)) ∙ h)

  pub Track-drop :
      (ring ring' : List Member) {n : ℕ} (d : Member)
      → Told n d
      → Gone d
      → ((a : ℕ) → HasId a ring → (d.id ≡ a) ⊎ HasId a ring')
      → Track ring
      → Track ring'
  Track-drop ring ring' {n} d t g f k = record {
    hub_inside = elim (f hub k.hub_inside) [ inl e ↦ absurd (Gone-ne d t g e) | inr h ↦ h ];
    kept =
        All-map _ _ old
          (λ b o. elim o [
            | inl h ↦ elim (f b.id h) [ inl e ↦ inr (n, d, e, t, g) | inr i ↦ inl i ]
            | inr r ↦ inr r
          ])
          k.kept;
  }
