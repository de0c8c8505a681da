-- ===== src/Busy/Round.antt =====
-- One round of the loop of `traverse` on what the arrivals left.
use grav.Common.{
  ℕ, ◌<◌, ◌≡◌, ◌≢◌, refl, sym, ap, ◌∙◌, subst, arith, List, [], ◌∷◌, ◌++◌, Option, some, inl, inr,
  ◌⊎◌, All, All-append, length, if_neg, append_assoc, ite, ℕ_discrete,
}
use grav.Message.{Message}
use grav.MsgBuffer.{MsgBuffer, iter}
use grav.PodConnection.{Ptr}
use grav.Pool.{ConnectionPool}
use grav.Pool.Ring.{Member, Represents, head_or, head_or-snoc}
use grav.Pool.Prepare.{Fate-cases, fate, status}
use grav.Bus.{traverse_round}
use grav.Bus.Lap.{got, ready}
use grav.Bus.Members.{HasId, Stays, Gone}
use grav.Bus.Traverse.{Round-stays, Round-goes, Round-single_stays, start_ne}
use grav.Busy.Story.{Told, Told-got, Told-ready, Track, Track-mono, Track-drop, Gone-ne}
use grav.Busy.Admit.{At, HasId-append_left, HasId-append_right}

-- The connection that was the current one comes last.
pub HasId-rotate :
    (a : ℕ) (m x : Member) (ms : List Member)
    → m.id ≡ x.id
    → HasId a (m ∷ ms)
    → HasId a (ms ++ (x ∷ []))
HasId-rotate a m x ms q (inl e) = HasId-append_right a ms (x ∷ []) (inl (sym q ∙ e))
HasId-rotate a m x ms q (inr h) = HasId-append_left a ms (x ∷ []) h

-- The same, and the one behind it is deleted.
HasId-drop :
    (a : ℕ) (m b x : Member) (ms : List Member)
    → m.id ≡ x.id
    → HasId a (m ∷ b ∷ ms)
    → (b.id ≡ a) ⊎ HasId a (ms ++ (x ∷ []))
HasId-drop a m b x ms q (inl e) = inr (HasId-rotate a m x ms q (inl e))
HasId-drop a m b x ms q (inr (inl e)) = inl e
HasId-drop a m b x ms q (inr (inr k)) = inr (HasId-rotate a m x ms q (inr k))

module _ (buffer : MsgBuffer) (msgs : List (Option Message)) (i : iter buffer ≡ some msgs)
    (msg : Message) (hub : ℕ) (old : List Member) where
  -- The loop is to end, and every member has been sent the message once.
  pub record Over (p : ConnectionPool) (ring : List Member) : Type 0 where
    pub represents : Represents p ring
    pub everyone : All (Told msgs msg hub old 1) ring
    pub track : Track msgs msg hub old ring

  -- What a round comes to.
  pub data Outcome (p : ConnectionPool) (s' a bound : ℕ) : Type 0 where
    over : (ring : List Member) → s' ≡ a → Over p ring → Outcome p s' a bound
    onward :
        (conn : Member) (todo seen : List Member)
        → s' ≢ a
        → a ≡ conn.id
        → length todo < bound
        → At msgs msg hub old p s' conn todo seen
        → Outcome p s' a bound

  abbrev pub Steps : ConnectionPool → ℕ → Ptr → ℕ → Type 0
  Steps p s conn bound =
      (s' : ℕ) × (a : Ptr) × (ahead : ConnectionPool) × (traverse_round buffer msg s conn p
        ≡ some (s', a, a, ahead))
      × Outcome ahead s' a bound

  told_snoc :
      (conn : Member) (seen : List Member)
      → Told msgs msg hub old 0 conn
      → All (Told msgs msg hub old 1) seen
      → All (Told msgs msg hub old 1) (seen ++ (got msg conn ∷ []))
  told_snoc conn seen c h =
      All-append (Told msgs msg hub old 1) seen (got msg conn ∷ []) h
        (Told-got msgs msg hub old conn c, tt)

  -- The round before the start.
  last_round :
      (p : ConnectionPool) (s : ℕ) (conn : Member) (seen : List Member) (bound : ℕ)
      → At msgs msg hub old p s conn [] seen
      → Steps p s conn.id bound
  last_round p s conn [] bound t = elim (Fate-cases (fate (status (got msg conn).body))) [
    | inl h ↦
        let w = Round-single_stays buffer msgs i msg s conn t.represents h in
        (
          s,
          conn.id,
          w.ahead,
          w.step,
          over (ready msgs (got msg conn) ∷ []) t.start (record {
            represents = w.represents;
            everyone = (
              Told-ready msgs msg hub old (got msg conn) h
                  (Told-got msgs msg hub old conn t.current),
              tt,
            );
            track =
                Track-mono msgs msg hub old (conn ∷ []) (ready msgs (got msg conn) ∷ []) (λ a k. k)
                  t.track;
          }),
        )
    | inr (g, h) ↦ elim t.track.hub_inside [
      | inl e ↦ absurd (
          Gone-ne msgs msg hub old (got msg conn) (Told-got msgs msg hub old conn t.current) (g, h)
            e)
      | inr k ↦ absurd k
    ]
  ]
  last_round p s conn (x ∷ seen) bound t = elim (Fate-cases (fate (status x.body))) [
    | inl h ↦
        let w = Round-stays buffer msgs i msg s conn x seen t.represents h in
        (
          s,
          x.id,
          w.ahead,
          w.step,
          over (ready msgs x ∷ (seen ++ (got msg conn ∷ []))) t.start (record {
            represents = w.represents;
            everyone =
                (Told-ready msgs msg hub old x h t.done.0, told_snoc conn seen t.current t.done.1);
            track =
                Track-mono msgs msg hub old (conn ∷ x ∷ seen)
                  (ready msgs x ∷ (seen ++ (got msg conn ∷ [])))
                  (λ a k. HasId-rotate a conn (got msg conn) (x ∷ seen) refl k) t.track;
          }),
        )
    | inr (g, h) ↦
        let w = Round-goes buffer msgs i msg s conn x seen g t.represents h in
        (
          ite (ℕ_discrete s x.id) (head_or seen conn.id) s,
          head_or seen conn.id,
          w.ahead,
          w.step,
          over (seen ++ (got msg conn ∷ [])) (ground (arith, t.start)) (record {
            represents = w.represents;
            everyone = told_snoc conn seen t.current t.done.1;
            track =
                Track-drop msgs msg hub old (conn ∷ x ∷ seen) (seen ++ (got msg conn ∷ [])) x
                  t.done.0 (g, h) (λ a k. HasId-drop a conn x (got msg conn) seen refl k) t.track;
          }),
        )
  ]

  -- The start is none of those in front.
  ahead_ne :
      {p : ConnectionPool} (s : ℕ) (conn b : Member) (todo seen : List Member)
      → At msgs msg hub old p s conn (b ∷ todo) seen
      → s ≢ b.id
  ahead_ne s conn b todo seen t =
      subst (λ x. x ≢ b.id) (sym t.start)
        (start_ne b conn todo seen t.represents.distinct.0.0 t.represents.distinct.1.0)

  -- The next connection stays, and the loop goes on there.
  onward_round :
      (p : ConnectionPool) (s : ℕ) (conn b : Member) (todo seen : List Member)
      → At msgs msg hub old p s conn (b ∷ todo) seen
      → Stays b
      → Steps p s conn.id (length (b ∷ todo))
  onward_round p s conn b todo seen t h =
      let w = Round-stays buffer msgs i msg s conn b (todo ++ seen) t.represents h in
      let shift = append_assoc todo seen (got msg conn ∷ []) in
      (
        s,
        b.id,
        w.ahead,
        w.step,
        onward (ready msgs b) todo (seen ++ (got msg conn ∷ [])) (ahead_ne s conn b todo seen t)
            refl (omega arith)
            (record {
              represents =
                  subst (λ ring. Represents w.ahead (ready msgs b ∷ ring)) shift w.represents;
              start = t.start ∙ sym (head_or-snoc seen (got msg conn) b.id);
              current = Told-ready msgs msg hub old b h t.waiting.0;
              waiting = t.waiting.1;
              done = told_snoc conn seen t.current t.done;
              track =
                  subst (λ ring. Track msgs msg hub old (ready msgs b ∷ ring)) shift
                    (Track-mono msgs msg hub old (conn ∷ b ∷ (todo ++ seen))
                      (ready msgs b ∷ ((todo ++ seen) ++ (got msg conn ∷ [])))
                      (λ a k. HasId-rotate a conn (got msg conn) (b ∷ (todo ++ seen)) refl k)
                      t.track);
            }),
      )

  -- The next connection is deleted, and the loop goes on at the one behind it, or ends.
  round_goes :
      (p : ConnectionPool) (s : ℕ) (conn b : Member) (todo seen : List Member)
      → At msgs msg hub old p s conn (b ∷ todo) seen
      → Gone b
      → Steps p s conn.id (length (b ∷ todo))
  round_goes p s conn b [] seen t (g, h) =
      let w = Round-goes buffer msgs i msg s conn b seen g t.represents h in
      (
        ite (ℕ_discrete s b.id) (head_or seen conn.id) s,
        head_or seen conn.id,
        w.ahead,
        w.step,
        over (seen ++ (got msg conn ∷ []))
            (if_neg (ℕ_discrete s b.id) (ahead_ne s conn b [] seen t) (head_or seen conn.id) s
              ∙ t.start)
            (record {
              represents = w.represents;
              everyone = told_snoc conn seen t.current t.done;
              track =
                  Track-drop msgs msg hub old (conn ∷ b ∷ seen) (seen ++ (got msg conn ∷ [])) b
                    t.waiting.0 (g, h) (λ a k. HasId-drop a conn b (got msg conn) seen refl k)
                    t.track;
            }),
      )
  round_goes p s conn b (c ∷ todo) seen t (g, h) =
      let w = Round-goes buffer msgs i msg s conn b (c ∷ (todo ++ seen)) g t.represents h in
      let shift = append_assoc todo seen (got msg conn ∷ []) in
      let stay = if_neg (ℕ_discrete s b.id) (ahead_ne s conn b (c ∷ todo) seen t) c.id s in
      let n : s ≢ c.id =
        subst (λ x. x ≢ c.id) (sym t.start)
          (start_ne c conn todo seen t.represents.distinct.0.1.0 t.represents.distinct.1.1.0) in
      (
        s,
        c.id,
        w.ahead,
        w.step ∙ ap (λ (z : ℕ). some (z, c.id, c.id, w.ahead)) stay,
        onward c todo (seen ++ (got msg conn ∷ [])) n refl (omega arith) (record {
          represents = subst (λ ring. Represents w.ahead (c ∷ ring)) shift w.represents;
          start = t.start ∙ sym (head_or-snoc seen (got msg conn) c.id);
          current = t.waiting.1.0;
          waiting = t.waiting.1.1;
          done = told_snoc conn seen t.current t.done;
          track =
              subst (λ ring. Track msgs msg hub old (c ∷ ring)) shift
                (Track-drop msgs msg hub old (conn ∷ b ∷ c ∷ (todo ++ seen))
                  (c ∷ ((todo ++ seen) ++ (got msg conn ∷ []))) b t.waiting.0 (g, h)
                  (λ a k. HasId-drop a conn b (got msg conn) (c ∷ (todo ++ seen)) refl k) t.track);
        }),
      )

  pub round_lem :
      (p : ConnectionPool) (s : ℕ) (conn : Member) (todo seen : List Member)
      → At msgs msg hub old p s conn todo seen
      → Steps p s conn.id (length todo)
  round_lem p s conn [] seen t = last_round p s conn seen 0 t
  round_lem p s conn (b ∷ todo) seen t = elim (Fate-cases (fate (status b.body))) [
    | inl h ↦ onward_round p s conn b todo seen t h
    | inr g ↦ round_goes p s conn b todo seen t g
  ]
