-- ===== src/Bus/Everyone.antt =====
-- Who has the message after it was handled.
use grav.Common.{
  ℕ, ◌≤◌, ◌≡◌, refl, sym, ap, ◌∙◌, subst, List, [], ◌∷◌, ◌++◌, Option, some, arith, inl, inr, ◌⊎◌,
  length, All,
}
use grav.Message.{Message}
use grav.MsgBuffer.Range.{InRange, iter_total}
use grav.Pool.{PrepareError}
use grav.Pool.Ring.{Member, Represents}
use grav.Pool.Prepare.{Fate-cases, stays, goes, fate, status}
use grav.Bus.{MessageBus, handle}
use grav.Bus.Members.{
  In, HasId, Stays, Gone, In-append_left, In-append_right, In-append_cases, All-of_In,
}
use grav.Bus.Lap.{got, ready}
use grav.Bus.Deliver.{delivered}
use grav.Bus.Handle.{choose, handle_lem}

module _ (msgs : List (Option Message)) (msg : Message) where
  -- `m` is a member of the ring that was, sent the message once, as it was or after `prepareNext`.
  abbrev pub Got : List Member → Member → Type 0
  Got old m = (b : Member) × In b old × ((m ≡ got msg b) ⊎ (m ≡ got msg (ready msgs b)))

  Got-mono :
      (old new : List Member)
      → ((b : Member) → In b old → In b new)
      → (ms : List Member) → All (Got old) ms
      → All (Got new) ms
  Got-mono old new f [] h = tt
  Got-mono old new f (m ∷ ms) ((b, i, o), h) = ((b, f b i, o), Got-mono old new f ms h)

  delivered-Stays :
      (b : Member) (ms : List Member)
      → Stays b
      → delivered msgs msg (b ∷ ms) ≡ got msg (ready msgs b) ∷ delivered msgs msg ms
  unfolding delivered
  delivered-Stays b [] h = ground (arith, h)
  delivered-Stays b (c ∷ ms) h = ground (arith, h)

  delivered_goes :
      (b c : Member) (ms : List Member) (g : PrepareError)
      → fate (status b.body) ≡ goes g
      → delivered msgs msg (b ∷ c ∷ ms) ≡ got msg c ∷ delivered msgs msg ms
  unfolding delivered
  delivered_goes b c ms g h = ground (arith, h)

  delivered_goes_last :
      (b : Member) (g : PrepareError)
      → fate (status b.body) ≡ goes g
      → delivered msgs msg (b ∷ []) ≡ []
  unfolding delivered
  delivered_goes_last b g h = ground (arith, h)

  delivered-Got : (bs : List Member) → All (Got bs) (delivered msgs msg bs)
  unfolding delivered
  delivered-Got [] = tt
  delivered-Got (b ∷ []) = elim (Fate-cases (fate (status b.body))) [
    | inl h ↦
        subst (All (Got (b ∷ []))) (sym (delivered-Stays b [] h)) ((b, inl refl, inr refl), tt)
    | inr (g, h) ↦ subst (All (Got (b ∷ []))) (sym (delivered_goes_last b g h)) tt
  ]
  delivered-Got (b ∷ c ∷ ms) = elim (Fate-cases (fate (status b.body))) [
    | inl h ↦ subst (All (Got (b ∷ c ∷ ms))) (sym (delivered-Stays b (c ∷ ms) h)) (
      (b, inl refl, inr refl),
      Got-mono (c ∷ ms) (b ∷ c ∷ ms) (λ x i. inr i) (delivered msgs msg (c ∷ ms))
          (delivered-Got (c ∷ ms)),
    )
    | inr (g, h) ↦ subst (All (Got (b ∷ c ∷ ms))) (sym (delivered_goes b c ms g h)) (
      (c, inr (inl refl), inl refl),
      Got-mono ms (b ∷ c ∷ ms) (λ x i. inr (inr i)) (delivered msgs msg ms) (delivered-Got ms),
    )
  ]

  same_fate :
      (b m : Member) (g : PrepareError) → b ≡ m → Stays m → fate (status b.body) ≡ goes g → ⊥
  same_fate b m g e s h =
      let k : goes g ≡ stays = sym h ∙ ap (λ (x : Member). fate (status x.body)) e ∙ s in cc

  delivered-keeps :
      (m : Member) (bs : List Member) → In m bs → Stays m → HasId m.id (delivered msgs msg bs)
  delivered-keeps m [] i s = absurd i
  delivered-keeps m (b ∷ []) i s = elim (Fate-cases (fate (status b.body))) [
    | inl h ↦
        subst (HasId m.id) (sym (delivered-Stays b [] h))
          (elim i [ inl e ↦ inl (ap (λ (x : Member). x.id) e) | inr k ↦ absurd k ])
    | inr (g, h) ↦ elim i [ inl e ↦ absurd (same_fate b m g e s h) | inr k ↦ absurd k ]
  ]
  delivered-keeps m (b ∷ c ∷ ms) i s = elim (Fate-cases (fate (status b.body))) [
    | inl h ↦
        let rest = delivered-keeps m (c ∷ ms) in
        subst (HasId m.id) (sym (delivered-Stays b (c ∷ ms) h))
          (elim i [ inl e ↦ inl (ap (λ (x : Member). x.id) e) | inr k ↦ inr (rest k s) ])
    | inr (g, h) ↦
        let rest = delivered-keeps m ms in
        subst (HasId m.id) (sym (delivered_goes b c ms g h)) (elim i [
          | inl e ↦ absurd (same_fate b m g e s h)
          | inr (inl e) ↦ inl (ap (λ (x : Member). x.id) e)
          | inr (inr k) ↦ inr (rest k s)
        ])
  ]

  choose_goes :
      (cur b : Member) (rest : List Member) (g : PrepareError)
      → fate (status b.body) ≡ goes g
      → choose msgs cur (b ∷ rest) ≡ choose msgs cur rest
  unfolding choose
  choose_goes cur b rest g h = ground (arith, h)

  choose-Stays :
      (cur b : Member) (rest : List Member)
      → Stays b
      → choose msgs cur (b ∷ rest) ≡ some (ready msgs b, rest ++ (cur ∷ []))
  unfolding choose
  choose-Stays cur b rest h = ground (arith, h)

  choose_single : (cur : Member) → Stays cur → choose msgs cur [] ≡ some (ready msgs cur, [])
  unfolding choose
  choose_single cur h = ground (arith, h)

  -- The preparation finds a start, which is a member of the ring. The others are of the ring too, and
  -- no member that stays is lost.
  record Chose (cur : Member) (rest : List Member) : Type 0 where
    start : Member
    others : List Member
    found : choose msgs cur rest ≡ some (ready msgs start, others)
    is_member : In start (cur ∷ rest)
    inside : (x : Member) → In x others → In x (cur ∷ rest)
    kept : (x : Member) → In x (cur ∷ rest) → Stays x → (start.id ≡ x.id) ⊎ In x others

  choose_now : (cur b : Member) (rest : List Member) → Stays b → Chose cur (b ∷ rest)
  choose_now cur b rest h = record {
    start = b;
    others = rest ++ (cur ∷ []);
    found = choose-Stays cur b rest h;
    is_member = inr (inl refl);
    inside = λ x i. elim (In-append_cases x rest (cur ∷ []) i) [
      | inl k ↦ inr (inr k)
      | inr (inl e) ↦ inl e
      | inr (inr k) ↦ absurd k
    ];
    kept = λ x i s. elim i [
      | inl e ↦ inr (In-append_right x rest (cur ∷ []) (inl e))
      | inr (inl e) ↦ inl (ap (λ (y : Member). y.id) e)
      | inr (inr k) ↦ inr (In-append_left x rest (cur ∷ []) k)
    ];
  }

  choose_later :
      (cur b : Member) (rest : List Member) (g : PrepareError)
      → fate (status b.body) ≡ goes g
      → Chose cur rest
      → Chose cur (b ∷ rest)
  choose_later cur b rest g h c = record {
    start = c.start;
    others = c.others;
    found = choose_goes cur b rest g h ∙ c.found;
    is_member = widen c.start c.is_member;
    inside = λ x i. widen x (c.inside x i);
    kept = λ x i s. elim i [
      | inl e ↦ c.kept x (inl e) s
      | inr (inl e) ↦ absurd (same_fate b x g e s h)
      | inr (inr k) ↦ c.kept x (inr k) s
    ];
  }
    where
      widen : (x : Member) → In x (cur ∷ rest) → In x (cur ∷ b ∷ rest)
      widen x (inl e) = inl e
      widen x (inr k) = inr (inr k)

  choose_lem :
      (cur : Member) (rest : List Member) (m : Member)
      → In m (cur ∷ rest)
      → Stays m
      → Chose cur rest
  choose_lem cur [] m (inr k) s = absurd k
  choose_lem cur [] m (inl e) s = record {
    start = cur;
    others = [];
    found = choose_single cur (ap (λ (y : Member). fate (status y.body)) e ∙ s);
    is_member = inl refl;
    inside = λ x i. absurd i;
    kept = λ x i t. elim i [ inl k ↦ inl (ap (λ (y : Member). y.id) k) | inr k ↦ absurd k ];
  }
  choose_lem cur (b ∷ rest) m i s = elim (Fate-cases (fate (status b.body))) [
    | inl h ↦ choose_now cur b rest h
    | inr (g, h) ↦
        let later = choose_lem cur rest m in
        elim i [
          | inl e ↦ choose_later cur b rest g h (later (inl e) s)
          | inr (inl e) ↦ absurd (same_fate b m g e s h)
          | inr (inr k) ↦ choose_later cur b rest g h (later (inr k) s)
        ]
  ]

-- What the handling of `msg` leaves: every member of the new ring is one of the old, sent the message
-- once, and a member of the old ring is there but if the status check sends it away.
pub record Handled (old : List Member) (msg : Message) (bus' : MessageBus) (ring : List Member)
    : Type 0 where
  pub replay : List (Option Message)
  pub represents : Represents bus'.pool ring
  pub buffered : InRange bus'.buffer
  pub everyone : All (Got replay msg old) ring
  pub kept : All (λ m. Gone m ⊎ HasId m.id ring) old

-- When the bus handles a message while some connection of the ring stays, with indices of the
-- buffer in range, fuel for the length of the ring and the feedback channels as they stand at the
-- start, then nothing panics, both loops end, and the pool represents a new ring in which every
-- member is a member of the old ring that was sent the message exactly once, as it was or after its
-- preparation; every member of the old ring is in the new one unless its status check sends it
-- away; and the indices of the buffer are in range again.
pub handle_everyone :
    (bus : MessageBus) (msg : Message) (cur : Member) (rest : List Member) (fuel : ℕ) (m : Member)
    → Represents bus.pool (cur ∷ rest)
    → InRange bus.buffer
    → length (cur ∷ rest) ≤ fuel
    → In m (cur ∷ rest)
    → Stays m
    → (bus' : MessageBus) × (ring : List Member) × (handle fuel bus msg ≡ some bus')
      × Handled (cur ∷ rest) msg bus' ring
handle_everyone bus msg cur rest fuel m r v l i s =
    let (msgs, e) = iter_total bus.buffer v in
    let c = choose_lem msgs msg cur rest m i s in
    let (bus', h, r', v') =
      handle_lem bus msg cur rest fuel msgs (ready msgs c.start) c.others r v e l c.found in
    let ring = got msg (ready msgs c.start) ∷ delivered msgs msg c.others in
    (
      bus',
      ring,
      h,
      record {
        replay = msgs;
        represents = r';
        buffered = v';
        everyone = (
          (c.start, c.is_member, inr refl),
          Got-mono msgs msg c.others (cur ∷ rest) c.inside (delivered msgs msg c.others)
              (delivered-Got msgs msg c.others),
        );
        kept =
            All-of_In (λ x. Gone x ⊎ HasId x.id ring) (cur ∷ rest)
              (λ x k. elim (Fate-cases (fate (status x.body))) [
                | inr gone ↦ inl gone
                | inl t ↦ inr (elim (c.kept x k t) [
                  | inl q ↦ inl q
                  | inr q ↦ inr (delivered-keeps msgs msg x c.others q t)
                ])
              ]);
      },
    )
