-- ===== src/Busy/Admit.antt =====
-- What arrives between two rounds, on the list of members.
use grav.Common.{
  ℕ, ◌+◌, ◌≡◌, ◌≢◌, ◌≤◌, refl, sym, ap, ◌∙◌, subst, arith, List, [], ◌∷◌, ◌++◌, Option, some, inl,
  inr, ◌⊎◌, All, length, Option-cases,
}
use grav.Message.{Message}
use grav.PodConnection.{Ptr, Feedback}
use grav.Pool.{ConnectionPool}
use grav.Pool.Ring.{Member, Represents, head_or, DistinctIds}
use grav.Pool.Refines.{fresh_member, insert_refines}
use grav.Pool.Feed.{feed, fed, fed_all, feed_refines, id-fed, head_or-fed_all}
use grav.Bus.Members.{Absent-ne, HasId}
use grav.Instance.Ring.{IsSuccess}
use grav.Busy.{Arrival, reports, connects, admit, admit_all, joins}
use grav.Busy.Story.{Told, Told-fed, Told-fed_all, Told-fresh, Track, Track-mono}

-- The pod of the hub reports nothing but successes.
abbrev pub SafeFor : ℕ → Arrival → Type 0
SafeFor hub (reports a fs) = a ≡ hub → All IsSuccess fs
SafeFor hub (connects fs) = Unit {0}

pub HasId-append_left : (a : ℕ) (xs ys : List Member) → HasId a xs → HasId a (xs ++ ys)
HasId-append_left a [] ys h = absurd h
HasId-append_left a (x ∷ xs) ys (inl e) = inl e
HasId-append_left a (x ∷ xs) ys (inr h) = inr (HasId-append_left a xs ys h)

pub HasId-append_right : (a : ℕ) (xs ys : List Member) → HasId a ys → HasId a (xs ++ ys)
HasId-append_right a [] ys h = h
HasId-append_right a (x ∷ xs) ys h = inr (HasId-append_right a xs ys h)

pub HasId-append_cases :
    (a : ℕ) (xs ys : List Member) → HasId a (xs ++ ys) → HasId a xs ⊎ HasId a ys
HasId-append_cases a [] ys h = inr h
HasId-append_cases a (x ∷ xs) ys (inl e) = inl (inl e)
HasId-append_cases a (x ∷ xs) ys (inr h) = elim (HasId-append_cases a xs ys h) [
  | inl i ↦ inl (inr i)
  | inr i ↦ inr i
]

module _ (a : Ptr) (fs : List Feedback) where
  HasId-fed_all : (c : ℕ) (ms : List Member) → HasId c ms → HasId c (fed_all a fs ms)
  HasId-fed_all c [] h = h
  HasId-fed_all c (m ∷ ms) (inl e) = inl (id-fed a fs m ∙ e)
  HasId-fed_all c (m ∷ ms) (inr h) = inr (HasId-fed_all c ms h)

  fed_all-append :
      (xs ys : List Member) → fed_all a fs (xs ++ ys) ≡ fed_all a fs xs ++ fed_all a fs ys
  fed_all-append [] ys = refl
  fed_all-append (x ∷ xs) ys = ap (λ ms. fed a fs x ∷ ms) (fed_all-append xs ys)

  length-fed_all : (ms : List Member) → length (fed_all a fs ms) ≡ length ms
  length-fed_all [] = refl
  length-fed_all (m ∷ ms) = omega (arith, length-fed_all ms)

module _ (msgs : List (Option Message)) (msg : Message) (hub : ℕ) (old : List Member) where
  -- `conn` is the current connection, `todo` the members in front of it up to the start, and `seen`
  -- those from the start on, which have been sent the message.
  pub record At (p : ConnectionPool) (s : ℕ) (conn : Member) (todo seen : List Member)
      : Type 0 where
    pub represents : Represents p (conn ∷ (todo ++ seen))
    pub start : s ≡ head_or seen conn.id
    pub current : Told msgs msg hub old 0 conn
    pub waiting : All (Told msgs msg hub old 0) todo
    pub done : All (Told msgs msg hub old 1) seen
    pub track : Track msgs msg hub old (conn ∷ (todo ++ seen))

  -- After the arrivals the current connection is the same, and not many more are to come.
  pub record Now (p : ConnectionPool) (s id bound : ℕ) (started : List Member) : Type 0 where
    pub conn : Member
    pub todo : List Member
    pub seen : List Member
    pub at : At p s conn todo seen
    pub same : conn.id ≡ id
    pub few : length todo ≤ bound
    pub alone : started ≡ [] → seen ≡ []

  admit_lem :
      (x : Arrival) (p : ConnectionPool) (s : ℕ) (conn : Member) (todo seen : List Member)
      → SafeFor hub x
      → At p s conn todo seen
      → (p' : ConnectionPool) × (admit x p ≡ some p')
        × Now p' s conn.id (length todo + joins (x ∷ [])) seen
  unfolding admit
  admit_lem (reports a fs) p s conn todo seen safe t = elim (Option-cases (feed p a fs)) [
    | inl out ↦ (
      p,
      ground (arith, out),
      record {
        conn = conn;
        todo = todo;
        seen = seen;
        at = t;
        same = refl;
        few = omega arith;
        alone = λ e. e;
      },
    )
    | inr (p', e) ↦ (
      p',
      ground (arith, e),
      record {
        conn = fed a fs conn;
        todo = fed_all a fs todo;
        seen = fed_all a fs seen;
        at = record {
          represents =
              subst (λ ms. Represents p' (fed a fs conn ∷ ms)) (fed_all-append a fs todo seen)
                (feed_refines a fs p p' (conn ∷ (todo ++ seen)) e t.represents);
          start =
              t.start
              ∙ ap (λ k. head_or seen k) (sym (id-fed a fs conn))
              ∙ sym (head_or-fed_all a fs seen (fed a fs conn).id);
          current = Told-fed msgs msg hub old 0 a fs conn safe t.current;
          waiting = Told-fed_all msgs msg hub old 0 a fs todo safe t.waiting;
          done = Told-fed_all msgs msg hub old 1 a fs seen safe t.done;
          track =
              subst (λ ms. Track msgs msg hub old (fed a fs conn ∷ ms))
                (fed_all-append a fs todo seen)
                (Track-mono msgs msg hub old (conn ∷ (todo ++ seen))
                  (fed_all a fs (conn ∷ (todo ++ seen)))
                  (λ c h. HasId-fed_all a fs c (conn ∷ (todo ++ seen)) h) t.track);
        };
        same = id-fed a fs conn;
        few = omega (arith, length-fed_all a fs todo);
        alone = λ e. ap (fed_all a fs) e;
      },
    )
  ]
  admit_lem (connects fs) p s conn todo seen safe t =
      let (p', e, r) = insert_refines fs conn (todo ++ seen) t.represents in
      let new = fresh_member (p.max_id + 1) fs in
      let ne : new.id ≢ hub =
        new_ne conn.id (todo ++ seen) (p.max_id + 1) r.distinct t.track.hub_inside in
      (
        p',
        e,
        record {
          conn = conn;
          todo = new ∷ todo;
          seen = seen;
          at = record {
            represents = r;
            start = t.start;
            current = t.current;
            waiting = (Told-fresh msgs msg hub old (p.max_id + 1) fs ne, t.waiting);
            done = t.done;
            track =
                Track-mono msgs msg hub old (conn ∷ (todo ++ seen)) (conn ∷ new ∷ (todo ++ seen))
                  (λ c h. elim h [ inl k ↦ inl k | inr k ↦ inr (inr k) ]) t.track;
          };
          same = refl;
          few = omega arith;
          alone = λ k. k;
        },
      )
    where
      new_ne :
          (i : ℕ) (ms : List Member) (n : ℕ)
          → DistinctIds (conn ∷ fresh_member n fs ∷ ms)
          → HasId hub (conn ∷ ms)
          → n ≢ hub
      new_ne i ms n d (inl k) = λ z. d.0.0 (z ∙ sym k)
      new_ne i ms n d (inr h) = Absent-ne n hub ms d.1.0 h

  pub admit_all_lem :
      (xs : List Arrival) (p : ConnectionPool) (s : ℕ) (conn : Member) (todo seen : List Member)
      → All (SafeFor hub) xs
      → At p s conn todo seen
      → (p' : ConnectionPool) × (admit_all xs p ≡ some p')
        × Now p' s conn.id (length todo + joins xs) seen
  unfolding admit_all
  admit_all_lem [] p s conn todo seen safe t = (
    p,
    refl,
    record {
      conn = conn;
      todo = todo;
      seen = seen;
      at = t;
      same = refl;
      few = omega arith;
      alone = λ e. e;
    },
  )
  admit_all_lem (x ∷ xs) p s conn todo seen safe t =
      let (p₁, e₁, n₁) = admit_lem x p s conn todo seen safe.0 t in
      let (p₂, e₂, n₂) = admit_all_lem xs p₁ s n₁.conn n₁.todo n₁.seen safe.1 n₁.at in
      (
        p₂,
        ground (arith, e₁, e₂),
        record {
          conn = n₂.conn;
          todo = n₂.todo;
          seen = n₂.seen;
          at = n₂.at;
          same = n₂.same ∙ n₁.same;
          few = joins_bound (length todo) (length n₁.todo) (length n₂.todo) x xs n₁.few n₂.few;
          alone = λ e. n₂.alone (n₁.alone e);
        },
      )
    where
      joins_bound :
          (a b c : ℕ) (x : Arrival) (xs : List Arrival)
          → b ≤ a + joins (x ∷ [])
          → c ≤ b + joins xs
          → c ≤ a + joins (x ∷ xs)
      joins_bound a b c (reports i fs) xs h k = omega arith
      joins_bound a b c (connects fs) xs h k = omega arith

  -- Where the lap has not started.
  pub restart :
      {p : ConnectionPool} {s id : ℕ} (bound : ℕ) (n : Now p s id bound [])
      → At p n.conn.id n.conn n.todo []
  restart {p} {s} bound n =
      let t = subst (At p s n.conn n.todo) (n.alone refl) n.at in
      subst (λ x. At p x n.conn n.todo []) t.start t
