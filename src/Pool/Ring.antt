-- ===== src/Pool/Ring.antt =====
-- The ring as a list of its members, the current one first. A pool that represents such a list has
-- each member at its address, linked to the next one and the last to the first.
use grav.Common.{
  ℕ, ◌≤◌, ◌≡◌, ◌≢◌, refl, sym, ap, subst, ◌∙◌, true, false, List, [], ◌∷◌, ◌++◌, Option, none, some,
  arith, All, All-append,
}
use grav.Message.{Message}
use grav.PodConnection.{Ptr, Feedback, PodConnection}
use grav.Pool.{Heap, update, ConnectionPool, store}

-- A connection of the ring without its link: it is connected, and its channel is open.
pub record Body : Type 0 where
  pub sends : List (Option Message)
  pub message_chan : List (Option Message)
  pub feedback_chan : List Feedback
  pub failed : List Message

pub record Member : Type 0 where
  pub id : ℕ
  pub body : Body
  pub open body use *

abbrev pub conn_at : Member → Ptr → PodConnection
conn_at m a = record {
  id = m.id;
  next = some a;
  sends = m.sends;
  message_chan = m.message_chan;
  closed = false;
  feedback_chan = m.feedback_chan;
  failed = m.failed;
  connected = true;
}

abbrev pub head_or : List Member → Ptr → Ptr
head_or [] a = a
head_or (m ∷ ms) a = m.id

-- The members are linked one to the next, and the last to `e`.
abbrev pub Seg : Heap → Ptr → List Member → Type 0
Seg h e [] = Unit {0}
Seg h e (m ∷ ms) = (h m.id ≡ some (conn_at m (head_or ms e))) × Seg h e ms

abbrev pub Absent : ℕ → List Member → Type 0
Absent a ms = All (λ m. m.id ≢ a) ms

abbrev pub DistinctIds : List Member → Type 0
DistinctIds [] = Unit {0}
DistinctIds (m ∷ ms) = Absent m.id ms × DistinctIds ms

abbrev pub first_id : List Member → Option Ptr
first_id [] = none
first_id (m ∷ ms) = some m.id

pub record Represents (p : ConnectionPool) (ms : List Member) : Type 0 where
  pub current : p.current ≡ first_id ms
  pub ring : Seg p.heap (head_or ms 0) ms
  pub distinct : DistinctIds ms
  pub bounded : All (λ m. m.id ≤ p.max_id) ms

pub update_self : (h : Heap) (a : Ptr) (c : PodConnection) → update h a c a ≡ some c
unfolding update
update_self h a c = ground arith

pub update_ne : (h : Heap) (a x : Ptr) (c : PodConnection) → a ≢ x → update h a c x ≡ h x
unfolding update
update_ne h a x c n = ground arith

-- A store elsewhere leaves a segment alone.
pub Seg-update :
    (h : Heap) (a e : Ptr) (c : PodConnection) (ms : List Member)
    → Absent a ms
    → Seg h e ms
    → Seg (update h a c) e ms
Seg-update h a e c [] n s = tt
Seg-update h a e c (m ∷ ms) n s =
    (update_ne h a m.id c (λ p. n.0 (sym p)) ∙ s.0, Seg-update h a e c ms n.1 s.1)

pub head_or-snoc :
    (ms : List Member) (m : Member) (e : Ptr) → head_or (ms ++ (m ∷ [])) e ≡ head_or ms m.id
head_or-snoc [] m e = refl
head_or-snoc (x ∷ ms) m e = refl

-- What was linked to `m` goes on behind it.
pub Seg-snoc :
    (h : Heap) (e : Ptr) (m : Member) (ms : List Member)
    → Seg h m.id ms
    → h m.id ≡ some (conn_at m e)
    → Seg h e (ms ++ (m ∷ []))
Seg-snoc h e m [] s l = (l, tt)
Seg-snoc h e m (x ∷ ms) s l =
    (s.0 ∙ ap (λ a. some (conn_at x a)) (sym (head_or-snoc ms m e)), Seg-snoc h e m ms s.1 l)

pub DistinctIds-snoc :
    (m : Member) (ms : List Member) → Absent m.id ms → DistinctIds ms → DistinctIds (ms ++ (m ∷ []))
DistinctIds-snoc m [] n d = (tt, tt)
DistinctIds-snoc m (x ∷ ms) n d = (
  All-append (λ y. y.id ≢ x.id) ms (m ∷ []) d.0 ((λ e. n.0 (sym e)), tt),
  DistinctIds-snoc m ms n.1 d.1,
)

first_id-snoc : (ms : List Member) (m : Member) → first_id (ms ++ (m ∷ [])) ≡ some (head_or ms m.id)
first_id-snoc [] m = refl
first_id-snoc (x ∷ ms) m = refl

-- The ring seen from its second member.
pub rotate-Represents :
    {p : ConnectionPool} (m : Member) (ms : List Member)
    → Represents p (m ∷ ms)
    → Represents (record p { current = some (head_or ms m.id) }) (ms ++ (m ∷ []))
rotate-Represents {p} m ms r = record {
  current = sym (first_id-snoc ms m);
  ring =
      subst (λ e. Seg p.heap e (ms ++ (m ∷ []))) (sym (head_or-snoc ms m 0))
        (Seg-snoc p.heap (head_or ms m.id) m ms r.ring.1 r.ring.0);
  distinct = DistinctIds-snoc m ms r.distinct.0 r.distinct.1;
  bounded = All-append (λ y. y.id ≤ p.max_id) ms (m ∷ []) r.bounded.1 (r.bounded.0, tt);
}

-- A store into the current member.
pub store_first :
    {p : ConnectionPool} (m : Member) (x : Body) (ms : List Member)
    → Represents p (m ∷ ms)
    → Represents
        (store p m.id (conn_at (record m { body = x }) (head_or ms m.id)))
        (record m { body = x } ∷ ms)
unfolding store
store_first {p} m x ms r = record {
  current = r.current;
  ring = (
    update_self p.heap m.id (conn_at (record m { body = x }) (head_or ms m.id)),
    Seg-update p.heap m.id m.id (conn_at (record m { body = x }) (head_or ms m.id)) ms r.distinct.0
        r.ring.1,
  );
  distinct = r.distinct;
  bounded = r.bounded;
}

-- A store into the member behind it.
pub store_second :
    {p : ConnectionPool} (m b : Member) (x : Body) (ms : List Member)
    → Represents p (m ∷ b ∷ ms)
    → Represents
        (store p b.id (conn_at (record b { body = x }) (head_or ms m.id)))
        (m ∷ record b { body = x } ∷ ms)
unfolding store
store_second {p} m b x ms r = record {
  current = r.current;
  ring = (
    update_ne p.heap b.id m.id c r.distinct.0.0 ∙ r.ring.0,
    (update_self p.heap b.id c, Seg-update p.heap b.id m.id c ms r.distinct.1.0 r.ring.1.1),
  );
  distinct = r.distinct;
  bounded = r.bounded;
}
  where
    c : PodConnection
    c = conn_at (record b { body = x }) (head_or ms m.id)
