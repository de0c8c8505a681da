-- ===== src/Busy/Loops.antt =====
-- The two loops of the bus while pods report and connect.
use grav.Common.{
  ℕ, ◌+◌, ◌<◌, ◌≤◌, ◌≡◌, refl, sym, ap, ◌∙◌, subst, arith, List, [], ◌∷◌, ◌++◌, Option, none, some,
  inl, inr, All, All-append, length, length-append, append-nil,
}
use grav.Message.{Message}
use grav.MsgBuffer.{MsgBuffer, iter}
use grav.PodConnection.{Ptr}
use grav.Pool.{ConnectionPool, PrepareError, next, prepare_next}
use grav.Pool.Ring.{Member, Represents}
use grav.Pool.Refines.{next_refines}
use grav.Pool.Prepare.{
  Fate-cases, fate, status, prepare_next_stays, prepare_next_goes, prepare_single_stays,
}
use grav.Bus.{traverse_round}
use grav.Bus.Lap.{ready}
use grav.Bus.Members.{Stays, Gone}
use grav.Busy.{Arrival, traverse_busy, prepare_busy, joins, all_joins}
use grav.Busy.Story.{Told, Told-ready, Track, Track-mono, Track-drop, Gone-ne}
use grav.Busy.Admit.{At, SafeFor, restart, admit_all_lem}
use grav.Busy.Round.{Over, over, onward, round_lem, HasId-rotate}

abbrev pub AllSafeFor : ℕ → List (List Arrival) → Type 0
AllSafeFor hub xss = All (All (SafeFor hub)) xss

module _ (buffer : MsgBuffer) (msgs : List (Option Message)) (i : iter buffer ≡ some msgs)
    (msg : Message) (hub : ℕ) (old : List Member) where
  abbrev pub Ends : List (List Arrival) → ConnectionPool → ℕ → Ptr → Type 0
  Ends xss p s conn =
      (p' : ConnectionPool) × (ring : List Member) × (traverse_busy xss buffer msg s conn p
        ≡ some p')
      × Over buffer msgs i msg hub old p' ring

  -- The loop of `traverse` ends.
  pub traverse_busy_lem :
      (xss : List (List Arrival)) (p : ConnectionPool) (s : ℕ) (conn : Member)
      (todo seen : List Member)
      → AllSafeFor hub xss
      → length todo + all_joins xss < length xss
      → At msgs msg hub old p s conn todo seen
      → Ends xss p s conn.id
  unfolding traverse_busy
  traverse_busy_lem [] p s conn todo seen safe l t = absurd (omega arith)
  traverse_busy_lem (xs ∷ xss) p s conn todo seen safe l t =
      let (p₁, e₁, n) = admit_all_lem msgs msg hub old xs p s conn todo seen safe.0 t in
      let (s', a, ahead, e₂, o) =
        round_lem buffer msgs i msg hub old p₁ s n.conn n.todo n.seen n.at in
      let e₃ : traverse_round buffer msg s conn.id p₁ ≡ some (s', a, a, ahead) =
        subst (λ c. traverse_round buffer msg s c p₁ ≡ some (s', a, a, ahead)) n.same e₂ in
      elim o [
        | over ring q z ↦ (ahead, ring, ground (arith, e₁, e₃, q), z)
        | onward conn' todo' seen' q k few at ↦
            let (p', ring, e, z) =
              traverse_busy_lem xss ahead s' conn' todo' seen' safe.1 (omega (arith, n.few)) at in
            (p', ring, ground (arith, e₁, e₃, q, k, e), z)
      ]

  -- The first loop ends, at a pool from which `next` comes to the start.
  abbrev pub Begins : List (List Arrival) → ConnectionPool → ℕ → Type 0
  Begins xss p bound =
      (p' : ConnectionPool) × (q : ConnectionPool) × (s : Member) × (todo : List Member)
      × (prepare_busy xss buffer p ≡ some p')
      × (next p' ≡ some (some s.id, q))
      × (length todo ≤ bound)
      × At msgs msg hub old q s.id s todo []

  chosen_single :
      (p : ConnectionPool) (cur : Member)
      → At msgs msg hub old p cur.id cur [] []
      → (p' : ConnectionPool) × (q : ConnectionPool) × (prepare_next p buffer ≡ some (none, p'))
        × (next p' ≡ some (some cur.id, q))
        × At msgs msg hub old q cur.id (ready msgs cur) [] []
  chosen_single p cur t = elim (Fate-cases (fate (status cur.body))) [
    | inl h ↦
        let (p₁, e₁, r₁) = prepare_single_stays buffer msgs i cur t.represents h in
        let (p₂, e₂, r₂) = next_refines (ready msgs cur) [] r₁ in
        (
          p₁,
          p₂,
          e₁,
          e₂,
          record {
            represents = r₂;
            start = refl;
            current = Told-ready msgs msg hub old cur h t.current;
            waiting = tt;
            done = tt;
            track = Track-mono msgs msg hub old (cur ∷ []) (ready msgs cur ∷ []) (λ a k. k) t.track;
          },
        )
    | inr g ↦ elim t.track.hub_inside [
      | inl e ↦ absurd (Gone-ne msgs msg hub old cur t.current g e)
      | inr k ↦ absurd k
    ]
  ]

  chosen_second :
      (p : ConnectionPool) (cur b : Member) (rest : List Member)
      → At msgs msg hub old p cur.id cur (b ∷ rest) []
      → Stays b
      → (p' : ConnectionPool) × (q : ConnectionPool) × (prepare_next p buffer ≡ some (none, p'))
        × (next p' ≡ some (some b.id, q))
        × At msgs msg hub old q b.id (ready msgs b) (rest ++ (cur ∷ [])) []
  chosen_second p cur b rest t h =
      let (p₁, e₁, r₁) = prepare_next_stays buffer msgs i cur b (rest ++ []) t.represents h in
      let (p₂, e₂, r₂) = next_refines cur (ready msgs b ∷ (rest ++ [])) r₁ in
      let same : (rest ++ []) ++ (cur ∷ []) ≡ (rest ++ (cur ∷ [])) ++ [] =
        ap (λ ms. ms ++ (cur ∷ [])) (append-nil rest) ∙ sym (append-nil (rest ++ (cur ∷ []))) in
      (
        p₁,
        p₂,
        e₁,
        e₂,
        record {
          represents = subst (λ ms. Represents p₂ (ready msgs b ∷ ms)) same r₂;
          start = refl;
          current = Told-ready msgs msg hub old b h t.waiting.0;
          waiting =
              All-append (Told msgs msg hub old 0) rest (cur ∷ []) t.waiting.1 (t.current, tt);
          done = tt;
          track =
              subst (λ ms. Track msgs msg hub old (ready msgs b ∷ ms)) same
                (Track-mono msgs msg hub old (cur ∷ b ∷ (rest ++ []))
                  (ready msgs b ∷ ((rest ++ []) ++ (cur ∷ [])))
                  (λ a k. HasId-rotate a cur cur (b ∷ (rest ++ [])) refl k) t.track);
        },
      )

  dropped :
      (p : ConnectionPool) (cur b : Member) (rest : List Member)
      → At msgs msg hub old p cur.id cur (b ∷ rest) []
      → Gone b
      → (p' : ConnectionPool) × (g : PrepareError) × (prepare_next p buffer ≡ some (some g, p'))
        × At msgs msg hub old p' cur.id cur rest []
  dropped p cur b rest t (g, h) =
      let (p₁, e₁, r₁, d₁) = prepare_next_goes buffer msgs i cur b (rest ++ []) g t.represents h in
      (
        p₁,
        g,
        e₁,
        record {
          represents = r₁;
          start = refl;
          current = t.current;
          waiting = t.waiting.1;
          done = tt;
          track =
              Track-drop msgs msg hub old (cur ∷ b ∷ (rest ++ [])) (cur ∷ (rest ++ [])) b
                t.waiting.0 (g, h)
                (λ a k. elim k [
                  | inl e ↦ inr (inl e)
                  | inr (inl e) ↦ inl e
                  | inr (inr j) ↦ inr (inr j)
                ])
                t.track;
        },
      )

  -- A round of the first loop: it chooses the start, or deletes a connection.
  data Tried (p : ConnectionPool) (bound : ℕ) : Type 0 where
    chosen :
        (p' q : ConnectionPool) (s : Member) (todo : List Member)
        → prepare_next p buffer ≡ some (none, p')
        → next p' ≡ some (some s.id, q)
        → length todo ≤ bound
        → At msgs msg hub old q s.id s todo []
        → Tried p bound
    deleted :
        (p' : ConnectionPool) (g : PrepareError) (cur : Member) (rest : List Member)
        → prepare_next p buffer ≡ some (some g, p')
        → length rest < bound
        → At msgs msg hub old p' cur.id cur rest []
        → Tried p bound

  try_next :
      (p : ConnectionPool) (cur : Member) (rest : List Member)
      → At msgs msg hub old p cur.id cur rest []
      → Tried p (length rest)
  try_next p cur [] t =
      let (p₁, p₂, e₁, e₂, t') = chosen_single p cur t in
      chosen p₁ p₂ (ready msgs cur) [] e₁ e₂ (omega arith) t'
  try_next p cur (b ∷ rest) t = elim (Fate-cases (fate (status b.body))) [
    | inl h ↦
        let (p₁, p₂, e₁, e₂, t') = chosen_second p cur b rest t h in
        chosen p₁ p₂ (ready msgs b) (rest ++ (cur ∷ [])) e₁ e₂
          (omega (arith, length-append rest (cur ∷ []))) t'
    | inr g ↦
        let (p₁, err, e₁, t') = dropped p cur b rest t g in
        deleted p₁ err cur rest e₁ (omega arith) t'
  ]

  pub prepare_busy_lem :
      (xss : List (List Arrival)) (p : ConnectionPool) (cur : Member) (rest : List Member)
      → AllSafeFor hub xss
      → length rest + all_joins xss < length xss
      → At msgs msg hub old p cur.id cur rest []
      → Begins xss p (length rest + all_joins xss)
  unfolding prepare_busy
  prepare_busy_lem [] p cur rest safe l t = absurd (omega arith)
  prepare_busy_lem (xs ∷ xss) p cur rest safe l t =
      let (p₁, e₁, n) = admit_all_lem msgs msg hub old xs p cur.id cur rest [] safe.0 t in
      elim (try_next p₁ n.conn n.todo (restart msgs msg hub old (length rest + joins xs) n)) [
        | chosen p' q s todo e₂ e₃ few t' ↦
            (p', q, s, todo, ground (arith, e₁, e₂), e₃, omega (arith, n.few, few), t')
        | deleted p' g cur' rest' e₂ few t' ↦
            let (p₂, q, s, todo, e, f, k, t'') =
              prepare_busy_lem xss p' cur' rest' safe.1 (omega (arith, n.few, few)) t' in
            (p₂, q, s, todo, ground (arith, e₁, e₂, e), f, omega (arith, n.few, few, k), t'')
      ]
