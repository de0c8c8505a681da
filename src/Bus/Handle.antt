-- ===== src/Bus/Handle.antt =====
-- The handling of one message: the preparation, the lap, and the buffer.
use grav.Common.{
  ℕ, zero, suc, ◌<◌, ◌≤◌, ◌≡◌, refl, sym, ap, ◌∙◌, subst, List, [], ◌∷◌, ◌++◌, Option, none, some,
  arith, inl, inr, length, length-append, append-nil, All,
}
use grav.Message.{Message}
use grav.MsgBuffer.{MsgBuffer, iter}
use grav.MsgBuffer.Range.{InRange, push_total, iter_total}
use grav.Bus.Members.{Gone}
use grav.Pool.{ConnectionPool, PrepareError, peek, next, check_next, prepare_next}
use grav.Pool.Ring.{Member, Represents}
use grav.Pool.Refines.{next_refines}
use grav.Pool.Prepare.{
  Fate-cases, stays, goes, fate, status, prepare_next_stays, prepare_next_goes,
  prepare_single_stays, prepare_single_goes,
}
use grav.Bus.{MessageBus, prepare_loop, prepare_rounds, traverse, handle}
use grav.Bus.Lap.{got, ready}
use grav.Bus.Traverse.{traverse_lap}
use grav.Bus.Deliver.{IsSettled, prepared-IsSettled, delivered, lap_lem}

-- The start of the lap and the members behind it: the members in front of the current one that are
-- to go are deleted, up to the first that stays.
module _ (msgs : List (Option Message)) where
  unfoldable pub choose : Member → List Member → Option (Member × List Member)
  choose cur [] = elim (fate (status cur.body)) [
    | stays ↦ some (ready msgs cur, [])
    | goes _ ↦ none
  ]
  choose cur (b ∷ rest) =
      let later = choose cur rest in
      elim (fate (status b.body)) [
        | stays ↦ some (ready msgs b, rest ++ (cur ∷ []))
        | goes _ ↦ later
      ]

module _ (buffer : MsgBuffer) (msgs : List (Option Message)) (i : iter buffer ≡ some msgs) where
  -- The loop ends at a pool from which `next` comes to the start.
  abbrev Chosen : ConnectionPool → ℕ → Member → List Member → Type 0
  Chosen p fuel s others =
      (p' : ConnectionPool) × (q : ConnectionPool) × (prepare_loop fuel buffer p ≡ some p')
      × (next p' ≡ some (some s.id, q))
      × Represents q (s ∷ others)

  prepare_loop_lem :
      (p : ConnectionPool) (cur : Member) (rest : List Member) (s : Member) (others : List Member)
      (fuel : ℕ)
      → Represents p (cur ∷ rest)
      → length rest < fuel
      → choose msgs cur rest ≡ some (s, others)
      → Chosen p fuel s others
  unfolding choose prepare_loop prepare_rounds
  prepare_loop_lem p cur rest s others zero r l e = absurd (omega arith)
  prepare_loop_lem p cur [] s others (suc fuel) r l e = elim (Fate-cases (fate (status cur.body))) [
    | inl h ↦
        let (p₁, e₁, r₁) = prepare_single_stays buffer msgs i cur r h in
        let (p₂, e₂, r₂) = next_refines (ready msgs cur) [] r₁ in
        let z : ready msgs cur ≡ s = ground (arith, h, e) in
        let o : [] ≡ others = ground (arith, h, e) in
        (
          p₁,
          p₂,
          ground (arith, e₁),
          e₂ ∙ ap (λ (t : Member). some (some t.id, p₂)) z,
          subst (λ t. Represents p₂ (t ∷ others)) z
              (subst (λ t. Represents p₂ (ready msgs cur ∷ t)) o r₂),
        )
    | inr (g, h) ↦ absurd (ground (arith, h, e))
  ]
  prepare_loop_lem p cur (b ∷ rest) s others (suc fuel) r l e =
      elim (Fate-cases (fate (status b.body))) [
        | inl h ↦
            let (p₁, e₁, r₁) = prepare_next_stays buffer msgs i cur b rest r h in
            let (p₂, e₂, r₂) = next_refines cur (ready msgs b ∷ rest) r₁ in
            let z : ready msgs b ≡ s = ground (arith, h, e) in
            let o : rest ++ (cur ∷ []) ≡ others = ground (arith, h, e) in
            (
              p₁,
              p₂,
              ground (arith, e₁),
              e₂ ∙ ap (λ (t : Member). some (some t.id, p₂)) z,
              subst (λ t. Represents p₂ (t ∷ others)) z
                  (subst (λ t. Represents p₂ (ready msgs b ∷ t)) o r₂),
            )
        | inr (g, h) ↦
            let (p₁, e₁, r₁, d₁) = prepare_next_goes buffer msgs i cur b rest g r h in
            let (p₂, q, e₂, e₃, r₃) =
              prepare_loop_lem p₁ cur rest s others fuel r₁ (omega arith) (ground (arith, h, e)) in
            (p₂, q, ground (arith, e₁, e₂), e₃, r₃)
      ]

  -- The start has been prepared.
  choose-IsSettled :
      (cur : Member) (rest : List Member) (s : Member) (others : List Member)
      → choose msgs cur rest ≡ some (s, others)
      → IsSettled s.body
  unfolding choose
  choose-IsSettled cur [] s others e = elim (Fate-cases (fate (status cur.body))) [
    | inl h ↦
        let z : ready msgs cur ≡ s = ground (arith, h, e) in
        subst (λ (t : Member). IsSettled t.body) z (prepared-IsSettled msgs cur.body h)
    | inr (g, h) ↦ absurd (ground (arith, h, e))
  ]
  choose-IsSettled cur (b ∷ rest) s others e = elim (Fate-cases (fate (status b.body))) [
    | inl h ↦
        let z : ready msgs b ≡ s = ground (arith, h, e) in
        subst (λ (t : Member). IsSettled t.body) z (prepared-IsSettled msgs b.body h)
    | inr (g, h) ↦ choose-IsSettled cur rest s others (ground (arith, h, e))
  ]

  choose-length :
      (cur : Member) (rest : List Member) (s : Member) (others : List Member)
      → choose msgs cur rest ≡ some (s, others)
      → length others ≤ length rest
  unfolding choose
  choose-length cur [] s others e = elim (Fate-cases (fate (status cur.body))) [
    | inl h ↦ let o : [] ≡ others = ground (arith, h, e) in omega (arith, ap length o)
    | inr (g, h) ↦ absurd (ground (arith, h, e))
  ]
  choose-length cur (b ∷ rest) s others e = elim (Fate-cases (fate (status b.body))) [
    | inl h ↦
        let o : rest ++ (cur ∷ []) ≡ others = ground (arith, h, e) in
        omega (arith, ap length o, length-append rest (cur ∷ []))
    | inr (g, h) ↦ let l = choose-length cur rest s others (ground (arith, h, e)) in omega arith
  ]

-- One message, taken from the bus where some connection is to stay: nothing panics, both loops end,
-- and the ring is the start and what the lap delivers behind it.
pub handle_lem :
    (bus : MessageBus) (msg : Message) (cur : Member) (rest : List Member) (fuel : ℕ)
    (msgs : List (Option Message)) (s : Member) (others : List Member)
    → Represents bus.pool (cur ∷ rest)
    → InRange bus.buffer
    → iter bus.buffer ≡ some msgs
    → length (cur ∷ rest) ≤ fuel
    → choose msgs cur rest ≡ some (s, others)
    → (bus' : MessageBus) × (handle fuel bus msg ≡ some bus')
      × Represents bus'.pool (got msg s ∷ delivered msgs msg others)
      × InRange bus'.buffer
unfolding handle traverse
handle_lem bus msg cur rest fuel msgs s others r v i l e =
    let (p₁, q, e₁, e₂, r₂) =
      prepare_loop_lem bus.buffer msgs i bus.pool cur rest s others fuel r (omega arith) e in
    let settled = choose-IsSettled bus.buffer msgs i cur rest s others e in
    let short = choose-length bus.buffer msgs i cur rest s others e in
    let (p₃, e₃, r₃) =
      traverse_lap bus.buffer msgs i msg q s others [] (got msg s ∷ delivered msgs msg others) fuel
        s.id (subst (λ t. Represents q (s ∷ t)) (sym (append-nil others)) r₂) (omega arith) refl
        (lap_lem msgs msg s others [] settled) in
    let (b', e₄, v') = push_total bus.buffer msg v in
    (record { pool = p₃; buffer = b' }, ground (arith, e₁, e₂, r₂.ring.0, e₃, e₄), r₃, v')

-- A ring whose members are all sent away runs empty, and the bus meets the nil pointer.
prepare_empty :
    (buffer : MsgBuffer) (p : ConnectionPool) → Represents p [] → prepare_next p buffer ≡ none
unfolding prepare_next check_next peek
prepare_empty buffer p r = ground (arith, r.current)

prepare_loop-none :
    (buffer : MsgBuffer) (fuel : ℕ) (p : ConnectionPool)
    → prepare_next p buffer ≡ none
    → prepare_loop fuel buffer p ≡ none
unfolding prepare_loop prepare_rounds
prepare_loop-none buffer zero p h = refl
prepare_loop-none buffer (suc fuel) p h = ground (arith, h)

prepare_loop-Gone :
    (buffer : MsgBuffer) (msgs : List (Option Message)) (p : ConnectionPool) (cur : Member)
    (rest : List Member) (fuel : ℕ)
    → iter buffer ≡ some msgs
    → Represents p (cur ∷ rest)
    → All Gone (cur ∷ rest)
    → prepare_loop fuel buffer p ≡ none
unfolding prepare_loop prepare_rounds
prepare_loop-Gone buffer msgs p cur rest zero i r a = refl
prepare_loop-Gone buffer msgs p cur [] (suc fuel) i r ((g, h), a) =
    let (p₁, e₁, r₁) = prepare_single_goes buffer msgs i cur g r h in
    ground (arith, e₁, prepare_loop-none buffer fuel p₁ (prepare_empty buffer p₁ r₁))
prepare_loop-Gone buffer msgs p cur (b ∷ rest) (suc fuel) i r (h₀, ((g, h), a)) =
    let (p₁, e₁, r₁, d₁) = prepare_next_goes buffer msgs i cur b rest g r h in
    ground (arith, e₁, prepare_loop-Gone buffer msgs p₁ cur rest fuel i r₁ (h₀, a))

-- Rounds of the loop before the lap in which prepareNext returned an error.
pub data Retries (buffer : MsgBuffer) : ℕ → ConnectionPool → ConnectionPool → Type 0 where
  no_more : {p : ConnectionPool} → Retries buffer 0 p p
  again :
      {n : ℕ} {p q r : ConnectionPool} (err : PrepareError)
      → prepare_next p buffer ≡ some (some err, q)
      → Retries buffer n q r
      → Retries buffer (suc n) p r

-- After the retries prepareNext meets the nil pointer.
abbrev pub RunsEmpty : MsgBuffer → ℕ → ConnectionPool → Type 0
RunsEmpty buffer n p =
    (p' : ConnectionPool) × Retries buffer n p p'
    × (p'.current ≡ none)
    × (prepare_next p' buffer ≡ none)

Gone-RunsEmpty :
    (buffer : MsgBuffer) (msgs : List (Option Message)) (p : ConnectionPool) (cur : Member)
    (rest : List Member)
    → iter buffer ≡ some msgs
    → Represents p (cur ∷ rest)
    → All Gone (cur ∷ rest)
    → RunsEmpty buffer (length (cur ∷ rest)) p
Gone-RunsEmpty buffer msgs p cur [] i r ((g, h), a) =
    let (p₁, e₁, r₁) = prepare_single_goes buffer msgs i cur g r h in
    (p₁, again g e₁ no_more, r₁.current, prepare_empty buffer p₁ r₁)
Gone-RunsEmpty buffer msgs p cur (b ∷ rest) i r (h₀, ((g, h), a)) =
    let (p₁, e₁, r₁, d₁) = prepare_next_goes buffer msgs i cur b rest g r h in
    let (p₂, t, c, e) = Gone-RunsEmpty buffer msgs p₁ cur rest i r₁ (h₀, a) in
    (p₂, again g e₁ t, c, e)

RunsEmpty-panics :
    (buffer : MsgBuffer) {n : ℕ} {p r : ConnectionPool}
    → Retries buffer n p r
    → prepare_next r buffer ≡ none
    → prepare_rounds (suc n) buffer p ≡ none
unfolding prepare_rounds
RunsEmpty-panics buffer no_more e = ground (arith, e)
RunsEmpty-panics buffer (again err h t) e = ground (arith, h, RunsEmpty-panics buffer t e)

-- Where the status check of every connection of the ring sends it away, prepareNext returns an
-- error as often as the ring has connections, and the next call of it meets the nil pointer of the
-- empty ring: with one round more than that the loop before the lap ends in the panic and not in
-- the end of its fuel, and the handling of a message does not return for any fuel.
pub handle-Gone :
    (bus : MessageBus) (msg : Message) (cur : Member) (rest : List Member) (fuel : ℕ)
    → Represents bus.pool (cur ∷ rest)
    → InRange bus.buffer
    → All Gone (cur ∷ rest)
    → RunsEmpty bus.buffer (length (cur ∷ rest)) bus.pool
      × (prepare_rounds (suc (length (cur ∷ rest))) bus.buffer bus.pool ≡ none)
      × (handle fuel bus msg ≡ none)
unfolding handle
handle-Gone bus msg cur rest fuel r v a =
    let (msgs, i) = iter_total bus.buffer v in
    let (p', retries, empty, panics) = Gone-RunsEmpty bus.buffer msgs bus.pool cur rest i r a in
    (
      (p', retries, empty, panics),
      RunsEmpty-panics bus.buffer retries panics,
      ground (arith, prepare_loop-Gone bus.buffer msgs bus.pool cur rest fuel i r a),
    )
