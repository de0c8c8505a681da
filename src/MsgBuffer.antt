-- ===== src/MsgBuffer.antt =====
-- grav/msgbuffer.go: the buffer of recent messages that new pods may have replayed. The lock makes
-- each call one step. The limit is a natural number: the bus passes the constant 128.
pub mod Valid
pub mod Evict
pub mod Recent
pub mod Replay
pub mod Loops
pub mod Range
use grav.Common.{
  ℕ, zero, suc, ◌+◌, ◌-◌, String, List, [], ◌∷◌, ◌++◌, Option, none, some, ite, ℕ_discrete, length,
  get_elem?, set, advance, Map, lookup, insert, delete, ◌>>=◌,
}
use grav.Message.{Message}

abbrev pub default_buffer_size : ℕ
default_buffer_size = 128

pub record MsgBuffer : Type 0 where
  pub msgs : Map Message
  pub order : List String
  pub limit : ℕ
  pub start_index : ℕ
  pub next_index : ℕ

unfoldable pub new_msg_buffer : ℕ → MsgBuffer
new_msg_buffer limit = record {
  msgs = [];
  order = [];
  limit = limit;
  start_index = 0;
  next_index = 0;
}

-- `none` is the panic of an index out of range, which a limit of 0 meets.
unfoldable pub push : MsgBuffer → Message → Option MsgBuffer
unfolding advance
push b msg =
    let msgs = insert msg.uuid msg b.msgs in
    ite (ℕ_discrete (length b.order) b.limit)
      (do
        first ← get_elem? b.order b.start_index
        some (record b {
          msgs = delete first msgs;
          order = set b.order b.start_index msg.uuid;
          start_index = advance (length b.order) b.start_index;
        }))
      (some (record b { msgs = msgs; order = b.order ++ (msg.uuid ∷ []) }))

-- The inner option is Go's nil message: of an empty buffer, or of a UUID that the map lacks.
unfoldable pub next : MsgBuffer → Option (Option Message × MsgBuffer)
unfolding advance
next b = ite (ℕ_discrete (length b.order) 0) (some (none, b)) (do
  uuid ← get_elem? b.order b.next_index
  some (lookup uuid b.msgs, record b { next_index = advance (length b.order) b.next_index }))

-- The loop of `Iter`: the arguments of the calls of msgFunc, whose errors are dropped. `none` is an
-- index out of range, or the end of the fuel.
unfoldable pub iter_loop : ℕ → MsgBuffer → ℕ → Option (List (Option Message))
unfolding advance
iter_loop zero b index = none
iter_loop (suc fuel) b index =
    let index' = advance (length b.order) index in
    let rest = iter_loop fuel b index' in
    do
      uuid ← get_elem? b.order index
      let msg = lookup uuid b.msgs
      ite (ℕ_discrete index' b.start_index) (some (msg ∷ [])) (do msgs ← rest; some (msg ∷ msgs))

unfoldable pub iter : MsgBuffer → Option (List (Option Message))
unfolding iter_loop
iter b = ite (ℕ_discrete (length b.order) 0) (some []) (iter_loop (length b.order) b b.start_index)

-- Messages pushed one after another, and `n` calls of `Next`.
unfoldable pub push_all : MsgBuffer → List Message → Option MsgBuffer
push_all b [] = some b
push_all b (m ∷ ms) = do b' ← push b m; push_all b' ms

unfoldable pub nexts : ℕ → MsgBuffer → Option (List (Option Message) × MsgBuffer)
nexts zero b = some ([], b)
nexts (suc n) b = do (msg, b') ← next b; (rest, b'') ← nexts n b'; some (msg ∷ rest, b'')
