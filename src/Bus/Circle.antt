-- ===== src/Bus/Circle.antt =====
-- What the bus promises, with the place where the turn stands forgotten: the pods stand in a circle.
use mathlib.Core.Quot
use mathlib.Core.Quot.{Quot, Quot-set}
use grav.Common.{
  ℕ, ◌≤◌, ◌<◌, ◌≡◌, refl, sym, ap, subst, ◌∙◌, List, [], ◌∷◌, ◌++◌, Option, some, arith, map,
  map-append, length, length-map, length-append, All, All-append,
}
use grav.Message.{Message}
use grav.MsgBuffer.Range.{InRange, iter_total}
use grav.Pool.Ring.{Member, Represents}
use grav.Pool.Prepare.{member}
use grav.Bus.{MessageBus, handle, run}
use grav.Bus.Lap.{got, ready}
use grav.Bus.Deliver.{IsSettled, settled_fate, settled_prepared, delivered}
use grav.Bus.Handle.{choose, handle_lem}

-- The second list is the first one, begun at another place.
abbrev pub Rotated : List Member → List Member → Type 0
Rotated xs ys = (us : List Member) × (vs : List Member) × (xs ≡ us ++ vs) × (ys ≡ vs ++ us)

abbrev pub Circle : Type 0
Circle = Quot Rotated

abbrev pub circle : List Member → Circle
circle = Quot.mk

pub Rotated-map :
    (f : Member → Member) (xs ys : List Member) → Rotated xs ys → Rotated (map f xs) (map f ys)
Rotated-map f xs ys (us, vs, e, e') =
    (map f us, map f vs, ap (map f) e ∙ map-append f us vs, ap (map f) e' ∙ map-append f vs us)

-- Every pod of the circle is sent the message.
unfoldable pub announce : Message → Circle → Circle
announce msg =
    Quot.lift Quot-set (λ ms. Quot.mk (map (got msg) ms))
      (λ xs ys h. Quot.sound (Rotated-map (got msg) xs ys h))

unfoldable pub announce_all : List Message → Circle → Circle
unfolding announce
announce_all [] c = c
announce_all (msg ∷ msgs) c = announce_all msgs (announce msg c)

abbrev pub Settled : List Member → Type 0
Settled = All (λ m. IsSettled m.body)

ready_settled : (msgs : List (Option Message)) (m : Member) → IsSettled m.body → ready msgs m ≡ m
ready_settled msgs m s = ap (member m.id) (settled_prepared msgs m.body s)

delivered-Settled :
    (msgs : List (Option Message)) (msg : Message) (ms : List Member)
    → Settled ms
    → delivered msgs msg ms ≡ map (got msg) ms
unfolding delivered
delivered-Settled msgs msg [] s = refl
delivered-Settled msgs msg (b ∷ []) s =
    ground (arith, settled_fate b.body s.0, ap (got msg) (ready_settled msgs b s.0))
delivered-Settled msgs msg (b ∷ c ∷ ms) s = ground (
  arith,
  settled_fate b.body s.0,
  ap (got msg) (ready_settled msgs b s.0),
  delivered-Settled msgs msg (c ∷ ms) s.1,
)

-- The start is the member in front of the current one, which comes last.
abbrev turned : Member → List Member → List Member
turned cur [] = cur ∷ []
turned cur (b ∷ rest) = b ∷ (rest ++ (cur ∷ []))

record Started (msgs : List (Option Message)) (cur : Member) (rest : List Member) : Type 0 where
  start : Member
  others : List Member
  chosen : choose msgs cur rest ≡ some (start, others)
  order : turned cur rest ≡ start ∷ others

choose-Settled :
    (msgs : List (Option Message)) (cur : Member) (rest : List Member)
    → Settled (cur ∷ rest)
    → Started msgs cur rest
unfolding choose
choose-Settled msgs cur [] s = record {
  start = cur;
  others = [];
  chosen = ground (arith, settled_fate cur.body s.0, ready_settled msgs cur s.0);
  order = refl;
}
choose-Settled msgs cur (b ∷ rest) s = record {
  start = b;
  others = rest ++ (cur ∷ []);
  chosen = ground (arith, settled_fate b.body s.1.0, ready_settled msgs b s.1.0);
  order = refl;
}

Rotated-turned : (cur : Member) (rest : List Member) → Rotated (cur ∷ rest) (turned cur rest)
Rotated-turned cur [] = ([], cur ∷ [], refl, refl)
Rotated-turned cur (b ∷ rest) = (cur ∷ [], b ∷ rest, refl, refl)

Settled-turned :
    (cur : Member) (rest : List Member) → Settled (cur ∷ rest) → Settled (turned cur rest)
Settled-turned cur [] s = s
Settled-turned cur (b ∷ rest) s =
    (s.1.0, All-append (λ m. IsSettled m.body) rest (cur ∷ []) s.1.1 (s.0, tt))

Settled-got : (msg : Message) (ms : List Member) → Settled ms → Settled (map (got msg) ms)
Settled-got msg [] s = tt
Settled-got msg (m ∷ ms) s =
    (record { drained = s.0.drained; low = s.0.low }, Settled-got msg ms s.1)

length-turned : (cur : Member) (rest : List Member) → length (turned cur rest) ≡ length (cur ∷ rest)
length-turned cur [] = refl
length-turned cur (b ∷ rest) = omega (arith, length-append rest (cur ∷ []))

-- The bus after some messages: as many pods, none of them with anything to do.
pub record Served (c : Circle) (size : ℕ) (bus' : MessageBus) : Type 0 where
  pub ring : List Member
  pub represents : Represents bus'.pool ring
  pub settled : Settled ring
  pub in_range : InRange bus'.buffer
  pub same_size : length ring ≡ size
  pub view : circle ring ≡ c

handle-Served :
    (bus : MessageBus) (msg : Message) (cur : Member) (rest : List Member) (fuel : ℕ)
    → Represents bus.pool (cur ∷ rest)
    → InRange bus.buffer
    → Settled (cur ∷ rest)
    → length (cur ∷ rest) ≤ fuel
    → (bus' : MessageBus) × (handle fuel bus msg ≡ some bus')
      × Served (announce msg (circle (cur ∷ rest))) (length (cur ∷ rest)) bus'
unfolding announce
handle-Served bus msg cur rest fuel r v s l =
    let (msgs, i) = iter_total bus.buffer v in
    let k = choose-Settled msgs cur rest s in
    let (bus', e, r', v') =
      handle_lem bus msg cur rest fuel msgs k.start k.others r v i l k.chosen in
    let calm : Settled (k.start ∷ k.others) = subst Settled k.order (Settled-turned cur rest s) in
    let sent : got msg k.start ∷ delivered msgs msg k.others ≡ map (got msg) (turned cur rest) =
      ap (λ ms. got msg k.start ∷ ms) (delivered-Settled msgs msg k.others calm.1)
      ∙ ap (map (got msg)) (sym k.order) in
    (
      bus',
      e,
      record {
        ring = map (got msg) (turned cur rest);
        represents = subst (Represents bus'.pool) sent r';
        settled = Settled-got msg (turned cur rest) (Settled-turned cur rest s);
        in_range = v';
        same_size = length-map (turned cur rest) (got msg) ∙ length-turned cur rest;
        view = sym (
            Quot.sound
              (Rotated-map (got msg) (cur ∷ rest) (turned cur rest) (Rotated-turned cur rest)));
      },
    )

-- On a bus whose ring is not empty and whose connections have nothing in the feedback channel and
-- fewer than 64 failed messages, with as much fuel as there are connections, any sequence of
-- messages is handled without a panic and to the end. Seen as a circle, where the place of the turn
-- is forgotten, the ring is then the old one with every message appended, in order, to what is sent
-- to each connection; it has as many connections, and again none has anything to do.
pub run_refines :
    (bus : MessageBus) (msgs : List Message) (ring : List Member) (fuel : ℕ)
    → Represents bus.pool ring
    → InRange bus.buffer
    → Settled ring
    → 0 < length ring
    → length ring ≤ fuel
    → (bus' : MessageBus) × (run fuel bus msgs ≡ some bus')
      × Served (announce_all msgs (circle ring)) (length ring) bus'
unfolding run announce_all
run_refines bus [] ring fuel r v s o l = (
  bus,
  refl,
  record { ring = ring; represents = r; settled = s; in_range = v; same_size = refl; view = refl },
)
run_refines bus (msg ∷ msgs) [] fuel r v s o l = absurd (omega arith)
run_refines bus (msg ∷ msgs) (cur ∷ rest) fuel r v s o l =
    let (b₁, e₁, k₁) = handle-Served bus msg cur rest fuel r v s l in
    let (b₂, e₂, k₂) =
      run_refines b₁ msgs k₁.ring fuel k₁.represents k₁.in_range k₁.settled
        (omega (arith, k₁.same_size)) (omega (arith, k₁.same_size)) in
    (
      b₂,
      ground (arith, e₁, e₂),
      record {
        ring = k₂.ring;
        represents = k₂.represents;
        settled = k₂.settled;
        in_range = k₂.in_range;
        same_size = k₂.same_size ∙ k₁.same_size;
        view = k₂.view ∙ ap (announce_all msgs) k₁.view;
      },
    )
