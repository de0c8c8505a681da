-- ===== src/Tests/Waits.antt =====
-- Two wanted messages that arrive at once.
use grav.Common.{◌≡◌, ◌≢◌, ◌≤◌, refl, inl, arith}
use grav.Pod.Waiting.{
  WaitState, selecting, leaving, locking, finished, WaitReach, here, later, call, take, queue,
  wait_never_returns,
}
use grav.Hub.Stuck
use grav.Hub.Stuck.{
  HubLocks, scanning, removing, removed, reading, failing, ended, LockReach, arrive, read_fails,
  send_fails, take_reader, mesh_stops,
}

abbrev begun : WaitState
begun = record { waiter = selecting; arriving = 2; senders = 0 }

abbrev lost : WaitState
lost = record { waiter = leaving; arriving = 0; senders = 1 }

begun-lost : WaitReach begun lost
begun-lost =
    later
      (later (later here (call begun (inl refl) (omega arith)))
        (call (record begun { arriving = 1; senders = 1 }) (inl refl) (omega arith)))
      (take (record begun { arriving = 0; senders = 2 }) refl (omega arith))

wait_never_returns_example : locking ≢ finished
wait_never_returns_example =
    wait_never_returns (later here (queue lost refl)) (inl refl, omega arith)

-- A peer that is gone: a message is sent to it, and the goroutine that reads it fails as well.
abbrev gone : HubLocks
gone = record { scanner = scanning; reader = reading; entering = 1; senders = 0 }

abbrev stuck : HubLocks
stuck = record { scanner = Stuck.locking; reader = ended; entering = 0; senders = 1 }

gone-stuck : LockReach gone stuck
gone-stuck =
    Stuck.later
      (Stuck.later
        (Stuck.later (Stuck.later Stuck.here (read_fails gone refl))
          (send_fails (record gone { reader = failing }) (inl refl) (omega arith)))
        (take_reader (record gone { reader = failing; entering = 0; senders = 1 }) refl refl))
      (Stuck.queue (record stuck { scanner = removing }) refl)

mesh_stops_example : (Stuck.locking ≡ Stuck.locking) × (1 ≤ stuck.senders) × (stuck.entering ≤ 1)
mesh_stops_example = mesh_stops (Stuck.later Stuck.here (arrive stuck)) refl (omega arith)
