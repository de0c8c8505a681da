-- ===== src/Hub/Stuck.antt =====
-- The lock of the hub and the ErrChan of one mesh connection, with messageHandler, the goroutine that
-- reads the connection, and the scan at once. ErrChan has no room; the scan takes one error of the
-- connection and then wants the write lock to remove it, while messageHandler sends with the read lock.
use grav.Common.{◌≡◌, ◌⊎◌, ◌≤◌, ◌+◌, ◌-◌, ℕ, arith}

-- `removing` has taken an error of the connection, `locking` waits for the write lock, and `removed`
-- has taken the connection out of the table.
pub data Scanner : Type 0 where
  scanning removing locking removed : Scanner

-- `failing` waits at ErrChan.
pub data Reader : Type 0 where
  reading failing ended : Reader

-- `entering` counts the calls of messageHandler before their read lock, `senders` those that wait at
-- ErrChan because SendMsg has failed.
pub record HubLocks : Type 0 where
  pub scanner : Scanner
  pub reader : Reader
  pub entering : ℕ
  pub senders : ℕ

-- The connection is in the table, and no writer waits, which would keep new readers out.
abbrev pub IsOpen : HubLocks → Type 0
IsOpen s = (s.scanner ≡ scanning) ⊎ (s.scanner ≡ removing)

pub data LockStep : HubLocks → HubLocks → Type 0 where
  arrive : (s : HubLocks) → LockStep s (record s { entering = s.entering + 1 })
  read_fails : (s : HubLocks) → s.reader ≡ reading → LockStep s (record s { reader = failing })
  send_fails :
      (s : HubLocks)
      → IsOpen s
      → 1 ≤ s.entering
      → LockStep s (record s { entering = s.entering - 1; senders = s.senders + 1 })
  send_works :
      (s : HubLocks)
      → IsOpen s
      → 1 ≤ s.entering
      → LockStep s (record s { entering = s.entering - 1 })
  take_reader :
      (s : HubLocks)
      → s.scanner ≡ scanning
      → s.reader ≡ failing
      → LockStep s (record s { scanner = removing; reader = ended })
  take_sender :
      (s : HubLocks)
      → s.scanner ≡ scanning
      → 1 ≤ s.senders
      → LockStep s (record s { scanner = removing; senders = s.senders - 1 })
  queue : (s : HubLocks) → s.scanner ≡ removing → LockStep s (record s { scanner = locking })
  lock :
      (s : HubLocks)
      → s.scanner ≡ locking
      → s.senders ≡ 0
      → LockStep s (record s { scanner = removed })
  pass :
      (s : HubLocks)
      → s.scanner ≡ removed
      → 1 ≤ s.entering
      → LockStep s (record s { entering = s.entering - 1 })

pub data LockReach (s : HubLocks) : HubLocks → Type 0 where
  here : LockReach s s
  later : {t u : HubLocks} → LockReach s t → LockStep t u → LockReach s u

-- The scan wants to remove the connection and waits for the lock, a call of messageHandler waits at
-- ErrChan with it, and at least `n` others wait for the lock as well.
abbrev pub IsStuck : ℕ → HubLocks → Type 0
IsStuck n s = (s.scanner ≡ locking) × (1 ≤ s.senders) × (n ≤ s.entering)

step-IsStuck : (n : ℕ) {s t : HubLocks} → LockStep s t → IsStuck n s → IsStuck n t
step-IsStuck n (arrive s) (at, m, k) = (at, m, omega (arith, k))
step-IsStuck n (read_fails s e) i = i
step-IsStuck n (send_fails s o some_entering) (at, m, k) = ground (arith, at, o)
step-IsStuck n (send_works s o some_entering) (at, m, k) = ground (arith, at, o)
step-IsStuck n (take_reader s e f) (at, m, k) = ground (arith, at, e)
step-IsStuck n (take_sender s e f) (at, m, k) = ground (arith, at, e)
step-IsStuck n (queue s e) (at, m, k) = ground (arith, at, e)
step-IsStuck n (lock s e none_left) (at, m, k) = ground (arith, none_left, m)
step-IsStuck n (pass s e some_entering) (at, m, k) = ground (arith, at, e)

-- From a state where the scan has taken an error of a connection and waits for the lock of the hub,
-- and a call of messageHandler waits at ErrChan of that connection with the read lock, whatever
-- happens then, the scan and that call wait for ever, and no call of messageHandler that waits for
-- the lock gets it.
pub mesh_stops :
    {s t : HubLocks}
    → LockReach s t
    → s.scanner ≡ locking
    → 1 ≤ s.senders
    → (t.scanner ≡ locking) × (1 ≤ t.senders) × (s.entering ≤ t.entering)
mesh_stops here e m = (e, m, omega arith)
mesh_stops {s} (later r step) e m = step-IsStuck s.entering step (mesh_stops r e m)
