-- ===== src/Busy/Schedule.antt =====
-- Schedules: the quiet one is the fuel of the loops of the bus, and a longer one changes nothing.
use grav.Common.{
  ℕ, zero, suc, ◌≡◌, refl, arith, List, [], ◌∷◌, ◌++◌, none, some, inl, inr, Option-cases,
  ℕ_discrete, bind_mono, bind_mono2, length,
}
use grav.Message.{Message}
use grav.MsgBuffer.{MsgBuffer}
use grav.PodConnection.{Ptr}
use grav.Pool.{ConnectionPool, prepare_next, next}
use grav.Bus.{
  MessageBus, traverse_round, traverse_loop, traverse, prepare_loop, prepare_rounds, handle,
}
use grav.Busy.{Arrival, admit_all, traverse_busy, prepare_busy, handle_busy, all_joins}

-- Nothing arrives.
abbrev pub quiet : ℕ → List (List Arrival)
quiet zero = []
quiet (suc n) = [] ∷ quiet n

traverse_busy-quiet :
    (n : ℕ) (buffer : MsgBuffer) (msg : Message) (s : ℕ) (conn : Ptr) (pool : ConnectionPool)
    → traverse_busy (quiet n) buffer msg s conn pool ≡ traverse_loop n buffer msg s conn pool
unfolding traverse_busy traverse_loop
traverse_busy-quiet zero buffer msg s conn pool = refl
traverse_busy-quiet (suc n) buffer msg s conn pool =
    elim (Option-cases (traverse_round buffer msg s conn pool)) [
      | inl out ↦ ground (arith, out)
      | inr ((s', a, id, ahead), l) ↦ ground (arith, l, traverse_busy-quiet n buffer msg s' a ahead)
    ]

prepare_busy-quiet :
    (n : ℕ) (buffer : MsgBuffer) (pool : ConnectionPool)
    → prepare_busy (quiet n) buffer pool ≡ prepare_loop n buffer pool
unfolding prepare_busy prepare_loop prepare_rounds
prepare_busy-quiet zero buffer pool = refl
prepare_busy-quiet (suc n) buffer pool = elim (Option-cases (prepare_next pool buffer)) [
  | inl out ↦ ground (arith, out)
  | inr ((none, p), l) ↦ ground (arith, l)
  | inr ((some err, p), l) ↦ ground (arith, l, prepare_busy-quiet n buffer p)
]

-- Where nothing arrives while a message is handled, the handling with a schedule of n rounds for
-- each loop does what the handling with n as fuel does, panics included.
pub handle_busy-quiet :
    (n : ℕ) (bus : MessageBus) (msg : Message)
    → handle_busy (quiet n) (quiet n) bus msg ≡ handle n bus msg
unfolding handle_busy handle traverse
handle_busy-quiet n bus msg =
    let start = prepare_busy-quiet n bus.buffer bus.pool in
    elim (Option-cases (prepare_loop n bus.buffer bus.pool)) [
      | inl out ↦ ground (arith, start, out)
      | inr (ready, l) ↦ elim (Option-cases (next ready)) [
        | inl out ↦ ground (arith, start, l, out)
        | inr ((none, ahead), k) ↦ ground (arith, start, l, k)
        | inr ((some a, ahead), k) ↦ elim (Option-cases (ahead.heap a)) [
          | inl out ↦ ground (arith, start, l, k, out)
          | inr (c, h) ↦
              ground (arith, start, l, k, h, traverse_busy-quiet n bus.buffer msg c.id a ahead)
        ]
      ]
    ]

traverse_busy-append :
    (xss yss : List (List Arrival)) (buffer : MsgBuffer) (msg : Message) (s : ℕ) (conn : Ptr)
    (pool p : ConnectionPool)
    → traverse_busy xss buffer msg s conn pool ≡ some p
    → traverse_busy (xss ++ yss) buffer msg s conn pool ≡ some p
unfolding traverse_busy
traverse_busy-append [] yss buffer msg s conn pool p e = ground (arith, e)
traverse_busy-append (xs ∷ xss) yss buffer msg s conn pool p e =
    bind_mono _ _ (admit_all xs pool)
      (λ q. bind_mono _ _ (traverse_round buffer msg s conn q) (λ (s', a, id, ahead).
        elim (ℕ_discrete s' id)
          as (λ d.
            elim d [ yes _ ↦ some ahead | no _ ↦ traverse_busy xss buffer msg s' a ahead ] ≡ some p
            → elim d [
              | yes _ ↦ some ahead
              | no _ ↦ traverse_busy (xss ++ yss) buffer msg s' a ahead
            ]
              ≡ some p) [
                | yes _ ↦ λ f. f
                | no _ ↦ λ f. traverse_busy-append xss yss buffer msg s' a ahead p f
              ]))
      e

prepare_busy-append :
    (xss yss : List (List Arrival)) (buffer : MsgBuffer) (pool p : ConnectionPool)
    → prepare_busy xss buffer pool ≡ some p
    → prepare_busy (xss ++ yss) buffer pool ≡ some p
unfolding prepare_busy
prepare_busy-append [] yss buffer pool p e = ground (arith, e)
prepare_busy-append (xs ∷ xss) yss buffer pool p e = elim (Option-cases (admit_all xs pool)) [
  | inl out ↦ ground (arith, out, e)
  | inr (q, k) ↦ elim (Option-cases (prepare_next q buffer)) [
    | inl out ↦ ground (arith, k, out, e)
    | inr ((none, r), l) ↦ ground (arith, k, l, e)
    | inr ((some err, r), l) ↦ ground (arith, k, l, e, prepare_busy-append xss yss buffer r p)
  ]
]

-- A handling that returns does not depend on the schedules' ends.
pub handle_busy-append :
    (before during xss yss : List (List Arrival)) (bus bus' : MessageBus) (msg : Message)
    → handle_busy before during bus msg ≡ some bus'
    → handle_busy (before ++ xss) (during ++ yss) bus msg ≡ some bus'
unfolding handle_busy
handle_busy-append before during xss yss bus bus' msg e =
    bind_mono2 _ _ (prepare_busy before bus.buffer bus.pool)
      (prepare_busy (before ++ xss) bus.buffer bus.pool)
      (λ p. prepare_busy-append before xss bus.buffer bus.pool p)
      (λ ready. bind_mono _ _ (next ready) (λ y. bind_mono _ _ y.0 (λ a.
        bind_mono _ _ (y.1.heap a) (λ c.
          bind_mono2 _ _ (traverse_busy during bus.buffer msg c.id a y.1)
            (traverse_busy (during ++ yss) bus.buffer msg c.id a y.1)
            (λ p. traverse_busy-append during yss bus.buffer msg c.id a y.1 p) (λ pool f. f)))))
      e

pub all_joins-quiet :
    (xss : List (List Arrival)) (n : ℕ) → all_joins (xss ++ quiet n) ≡ all_joins xss
all_joins-quiet [] zero = refl
all_joins-quiet [] (suc n) = omega (arith, all_joins-quiet [] n)
all_joins-quiet (xs ∷ xss) n = omega (arith, all_joins-quiet xss n)

pub length-quiet : (n : ℕ) → length (quiet n) ≡ n
length-quiet zero = refl
length-quiet (suc n) = omega (arith, length-quiet n)
