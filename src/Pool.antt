-- ===== src/Pool.antt =====
-- grav/pool.go and podConnection.insertAfter: the ring of connections, on a heap of connections. A
-- new connection is allocated at the address that is its ID. `none` is the panic of a nil pointer or
-- of a channel that is closed twice. IDs do not wrap.
pub mod Ring
pub mod Refines
pub mod Prepare
pub mod Lost
pub mod Change
pub mod Feed
pub mod Race
use grav.Common.{ℕ, ◌+◌, Bool, if◌then◌else◌, List, Option, none, some, ite, ℕ_discrete, ◌>>=◌}
use grav.MsgBuffer.{MsgBuffer, iter}
use grav.PodConnection.{
  Ptr, Feedback, PodConnection, ConnStatus, failed_message, failed_message_max, new_pod_connection,
  send_all, check_status, disconnect, flush_failed,
}

abbrev pub Heap : Type 0
Heap = Ptr → Option PodConnection

unfoldable pub update : Heap → Ptr → PodConnection → Heap
update h a c x = ite (ℕ_discrete a x) (some c) (h x)

pub record ConnectionPool : Type 0 where
  pub heap : Heap
  pub current : Option Ptr
  pub max_id : ℕ

pub data PrepareError : Type 0 where
  removing disconnecting : PrepareError

unfoldable pub new_connection_pool : ConnectionPool
new_connection_pool = record { heap = λ _. none; current = none; max_id = 0 }

-- `*a = c`
unfoldable pub store : ConnectionPool → Ptr → PodConnection → ConnectionPool
store p a c = record p { heap = update p.heap a c }

-- `p.next`, or `p` itself where it is nil
unfoldable pub next_or_self : PodConnection → Ptr → Ptr
next_or_self c p = elim c.next [ none ↦ p | some n ↦ n ]

-- `p.insertAfter(conn)`
unfoldable pub insert_after : ConnectionPool → Ptr → Ptr → Option ConnectionPool
unfolding next_or_self store
insert_after pool p conn = do
  c ← pool.heap p
  let linked = store pool p (record c { next = some conn })
  n ← linked.heap conn
  some (store linked conn (record n { next = some (next_or_self c p) }))

unfoldable pub insert : ConnectionPool → List Feedback → Option ConnectionPool
unfolding store
insert pool feedback =
    let id = pool.max_id + 1 in
    let conn = new_pod_connection id feedback in
    elim pool.current [
      | none ↦ some (record (store pool id (record conn { next = some id })) {
        current = some id;
        max_id = id;
      })
      | some cur ↦ insert_after (record (store pool id conn) { max_id = id }) cur id
    ]

-- The result is a pointer, which may be nil.
unfoldable pub peek : ConnectionPool → Option (Option Ptr)
peek pool = do cur ← pool.current; c ← pool.heap cur; some c.next

unfoldable pub next : ConnectionPool → Option (Option Ptr × ConnectionPool)
next pool = do
  cur ← pool.current
  c ← pool.heap cur
  some (c.next, record pool { current = c.next })

unfoldable pub delete_next : ConnectionPool → Option ConnectionPool
unfolding store
delete_next pool = do
  cur ← pool.current
  c ← pool.heap cur
  a ← c.next
  n ← pool.heap a
  dead ← disconnect n
  let closed = store pool a dead
  ite (ℕ_discrete a cur) (some (record closed { current = none }))
      (do c' ← closed.heap cur; some (store closed cur (record c' { next = dead.next })))

-- `next.send` for each message that `Iter` visits.
unfoldable pub replay_next : ConnectionPool → MsgBuffer → Option ConnectionPool
unfolding store
replay_next pool buffer = do
  nxt ← peek pool
  msgs ← iter buffer
  a ← nxt
  c ← pool.heap a
  some (store pool a (send_all c msgs))

-- The end of `prepareNext`: `if status.HadSuccess { next.flushFailed() }`.
unfoldable pub flush_if : Bool → Ptr → ConnectionPool → Option ConnectionPool
unfolding store
flush_if had_success a pool =
    if had_success then (do c ← pool.heap a; some (store pool a (flush_failed c))) else some pool

-- What `prepareNext` does on the status of the next connection, which is at `a`.
unfoldable pub handle_status :
    ConnStatus → Ptr → ConnectionPool → MsgBuffer → Option (Option PrepareError × ConnectionPool)
unfolding flush_if
handle_status status a checked buffer = elim status.error [
  | some failed_message_max ↦ do p ← delete_next checked; some (some removing, p)
  | some failed_message ↦ do p ← flush_if status.had_success a checked; some (none, p)
  | none ↦
      if status.wants_disconnect
      then (do p ← delete_next checked; some (some disconnecting, p))
      else if status.wants_replay
      then (do
        replayed ← replay_next checked buffer
        p ← flush_if status.had_success a replayed
        some (none, p))
      else (do p ← flush_if status.had_success a checked; some (none, p))
]

-- The first half of `prepareNext`: the status of the next connection, and where that is.
unfoldable pub check_next : ConnectionPool → Option (ConnStatus × Ptr × ConnectionPool)
unfolding store
check_next pool = do
  nxt ← peek pool
  a ← nxt
  c ← pool.heap a
  some ((check_status c).0, a, store pool a (check_status c).1)

unfoldable pub prepare_next :
    ConnectionPool → MsgBuffer → Option (Option PrepareError × ConnectionPool)
unfolding check_next
prepare_next pool buffer = do
  (status, a, checked) ← check_next pool
  handle_status status a checked buffer

-- `prepareNext` while another goroutine inserts a connection between its halves: only the calls it
-- makes hold the lock.
unfoldable pub prepare_next_racing :
    List Feedback → ConnectionPool → MsgBuffer → Option (Option PrepareError × ConnectionPool)
unfolding check_next insert
prepare_next_racing feedback pool buffer = do
  (status, a, checked) ← check_next pool
  joined ← insert checked feedback
  handle_status status a joined buffer
