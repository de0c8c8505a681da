-- ===== src/Pod/Waiting.antt =====
-- The lock and the errChan of `WaitUntil` with several messages at once. The goroutine of a message
-- whose function returns nil or an error other than ErrMsgNotWanted sends to errChan while it holds
-- the read lock; errChan has no room, and `WaitUntil` takes one value at most.
use grav.Common.{◌≡◌, ◌≢◌, ◌⊎◌, ◌≤◌, ◌+◌, ◌-◌, ℕ, refl, inr, arith}

-- `leaving` is behind the select, `locking` waits for the write lock, `finished` has it.
pub data Waiter : Type 0 where
  selecting leaving locking finished : Waiter

-- `arriving` counts the goroutines before their read lock, `senders` those that wait at errChan.
pub record WaitState : Type 0 where
  pub waiter : Waiter
  pub arriving : ℕ
  pub senders : ℕ

-- A writer that waits keeps new readers out.
pub data WaitStep : WaitState → WaitState → Type 0 where
  call :
      (s : WaitState)
      → (s.waiter ≡ selecting) ⊎ (s.waiter ≡ leaving)
      → 1 ≤ s.arriving
      → WaitStep s (record s { arriving = s.arriving - 1; senders = s.senders + 1 })
  take :
      (s : WaitState)
      → s.waiter ≡ selecting
      → 1 ≤ s.senders
      → WaitStep s (record s { waiter = leaving; senders = s.senders - 1 })
  expire : (s : WaitState) → s.waiter ≡ selecting → WaitStep s (record s { waiter = leaving })
  queue : (s : WaitState) → s.waiter ≡ leaving → WaitStep s (record s { waiter = locking })
  lock :
      (s : WaitState)
      → s.waiter ≡ locking
      → s.senders ≡ 0
      → WaitStep s (record s { waiter = finished })
  ignore :
      (s : WaitState)
      → s.waiter ≡ finished
      → 1 ≤ s.arriving
      → WaitStep s (record s { arriving = s.arriving - 1 })

pub data WaitReach (s : WaitState) : WaitState → Type 0 where
  here : WaitReach s s
  later : {t u : WaitState} → WaitReach s t → WaitStep t u → WaitReach s u

-- The select is over, and a goroutine still waits at errChan.
abbrev pub IsLost : WaitState → Type 0
IsLost s = ((s.waiter ≡ leaving) ⊎ (s.waiter ≡ locking)) × (1 ≤ s.senders)

step-IsLost : {s t : WaitState} → WaitStep s t → IsLost s → IsLost t
step-IsLost (call s o some_arriving) (left, n) = (left, omega (arith, n))
step-IsLost (take s e some_sender) (left, n) = ground (arith, left)
step-IsLost (expire s e) (left, n) = ground (arith, left)
step-IsLost (queue s e) (left, n) = (inr refl, n)
step-IsLost (lock s e none_left) (left, n) = ground (arith, none_left, n)
step-IsLost (ignore s e some_arriving) (left, n) = ground (arith, left)

reach-IsLost : {s t : WaitState} → WaitReach s t → IsLost s → IsLost t
reach-IsLost here i = i
reach-IsLost (later r s) i = step-IsLost s (reach-IsLost r i)

-- From a state where WaitUntil has left its select and a goroutine of a message still waits at
-- errChan, no steps lead to a state where WaitUntil has its lock again: it never returns.
pub wait_never_returns : {s t : WaitState} → WaitReach s t → IsLost s → t.waiter ≢ finished
wait_never_returns r i e = let (left, _) = reach-IsLost r i in ground (arith, left, e)
