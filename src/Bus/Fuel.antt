-- ===== src/Bus/Fuel.antt =====
-- What the loops of the bus return does not depend on the fuel.
use grav.Common.{
  ℕ, zero, suc, ◌+◌, ◌≡◌, arith, none, some, Option-cases, inl, inr, ℕ_discrete, bind_mono,
  bind_mono2,
}
use grav.Message.{Message}
use grav.MsgBuffer.{MsgBuffer}
use grav.PodConnection.{Ptr}
use grav.Pool.{ConnectionPool, prepare_next, next}
use grav.Bus.{
  MessageBus, prepare_loop, prepare_rounds, traverse_round, traverse_loop, traverse, handle,
}

prepare_loop-suc :
    (n : ℕ) (buffer : MsgBuffer) (pool p : ConnectionPool)
    → prepare_loop n buffer pool ≡ some p
    → prepare_loop (suc n) buffer pool ≡ some p
unfolding prepare_loop prepare_rounds
prepare_loop-suc zero buffer pool p e = ground (arith, e)
prepare_loop-suc (suc n) buffer pool p e = elim (Option-cases (prepare_next pool buffer)) [
  | inl out ↦ ground (arith, out, e)
  | inr ((none, q), l) ↦ ground (arith, l, e)
  | inr ((some err, q), l) ↦ ground (arith, l, e, prepare_loop-suc n buffer q p)
]

traverse_loop-suc :
    (n : ℕ) (buffer : MsgBuffer) (msg : Message) (s : ℕ) (conn : Ptr) (pool p : ConnectionPool)
    → traverse_loop n buffer msg s conn pool ≡ some p
    → traverse_loop (suc n) buffer msg s conn pool ≡ some p
unfolding traverse_loop
traverse_loop-suc zero buffer msg s conn pool p e = ground (arith, e)
traverse_loop-suc (suc n) buffer msg s conn pool p e =
    bind_mono _ _ (traverse_round buffer msg s conn pool)
      (λ (s', a, id, ahead).
        elim (ℕ_discrete s' id)
          as (λ d.
            elim d [ yes _ ↦ some ahead | no _ ↦ traverse_loop n buffer msg s' a ahead ] ≡ some p
            → elim d [ yes _ ↦ some ahead | no _ ↦ traverse_loop (suc n) buffer msg s' a ahead ]
              ≡ some p) [
                | yes _ ↦ λ f. f
                | no _ ↦ λ f. traverse_loop-suc n buffer msg s' a ahead p f
              ])
      e

traverse-suc :
    (n : ℕ) (buffer : MsgBuffer) (msg : Message) (start : Ptr) (pool p : ConnectionPool)
    → traverse n buffer msg start pool ≡ some p
    → traverse (suc n) buffer msg start pool ≡ some p
unfolding traverse
traverse-suc n buffer msg start pool p e =
    bind_mono (λ c. traverse_loop n buffer msg c.id start pool)
      (λ c. traverse_loop (suc n) buffer msg c.id start pool) (pool.heap start)
      (λ c f. traverse_loop-suc n buffer msg c.id start pool p f) e

handle-suc :
    (n : ℕ) (bus bus' : MessageBus) (msg : Message)
    → handle n bus msg ≡ some bus'
    → handle (suc n) bus msg ≡ some bus'
unfolding handle
handle-suc n bus bus' msg e =
    bind_mono2 _ _ (prepare_loop n bus.buffer bus.pool) (prepare_loop (suc n) bus.buffer bus.pool)
      (λ p. prepare_loop-suc n bus.buffer bus.pool p)
      (λ ready. bind_mono _ _ (next ready) (λ y. bind_mono _ _ y.0 (λ a.
        bind_mono2 _ _ (traverse n bus.buffer msg a y.1) (traverse (suc n) bus.buffer msg a y.1)
          (λ p. traverse-suc n bus.buffer msg a y.1 p) (λ pool f. f))))
      e

pub handle-add :
    (k n : ℕ) (bus bus' : MessageBus) (msg : Message)
    → handle n bus msg ≡ some bus'
    → handle (n + k) bus msg ≡ some bus'
handle-add zero n bus bus' msg e = ground (arith, e)
handle-add (suc k) n bus bus' msg e =
    let same : suc (n + k) ≡ n + suc k = omega arith in
    rw (← same) (handle-suc (n + k) bus bus' msg (handle-add k n bus bus' msg e))

-- Two runs that return agree, whatever their fuel.
pub handle_agrees :
    (m n : ℕ) (bus a b : MessageBus) (msg : Message)
    → handle m bus msg ≡ some a
    → handle n bus msg ≡ some b
    → a ≡ b
handle_agrees m n bus a b msg e f =
    let same : m + n ≡ n + m = omega arith in
    let f' : handle (m + n) bus msg ≡ some b = rw same (handle-add m n bus b msg f) in
    ground (arith, handle-add n m bus a msg e, f')
