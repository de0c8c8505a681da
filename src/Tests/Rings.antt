-- ===== src/Tests/Rings.antt =====
-- The pool and the bus on rings of two pods.
use grav.Common.{
  ◌≡◌, refl, true, false, List, [], ◌∷◌, Option, none, some, arith, inl, lookup, string_discrete,
  ℕ_discrete, dec_le,
}
use grav.Message.{Message}
use grav.MsgBuffer.{iter}
use grav.PodConnection.{PodConnection, Feedback, msg_disconnect, failed_msg}
use grav.Pool.{ConnectionPool, store, update, prepare_next, disconnecting}
use grav.Pool.Ring.{Member, conn_at, Represents}
use grav.Pool.Lost.{sent_again, request_lost}
use grav.Pool.Prepare.{member}
use grav.Bus.{MessageBus, prepare_rounds, handle, run}
use grav.Bus.Circle.{Served, circle, announce_all, run_refines}
use grav.Bus.Everyone.{Handled, handle_everyone}
use grav.Bus.Handle.{RunsEmpty, handle-Gone}
use grav.Pod.{disconnect, new_pod, send, start}
use grav.Pod.Leaving.{disconnect_lem}
use grav.Pool.Feed.{feed}
use grav.Tests.Samples.{
  message, full_buffer, full_buffer-InRange, quiet, pair, pair_members, pair-Represents,
}

abbrev replayed_now : List (Option Message)
replayed_now = some (message "b") ∷ some (message "c") ∷ []

abbrev leaving : List Feedback
leaving = msg_disconnect ∷ []

abbrev failing : List Feedback
failing = failed_msg (message "a") ∷ msg_disconnect ∷ []

pub full_buffer-iter : iter full_buffer ≡ some replayed_now
unfolding iter lookup string_discrete ℕ_discrete
full_buffer-iter = refl

request_lost_example :
    (p' : ConnectionPool) × (prepare_next (pair failing) full_buffer ≡ some (none, p'))
    × Represents p' (quiet 1 [] ∷ member 2 (sent_again (quiet 2 failing).body) ∷ [])
request_lost_example =
    request_lost full_buffer replayed_now (quiet 1 []) (quiet 2 failing) [] (message "a") []
      full_buffer-iter (pair-Represents failing) refl (omega arith)

abbrev busy : MessageBus
busy = record { pool = pair leaving; buffer = full_buffer }

handle_everyone_example :
    (bus' : MessageBus) × (ring : List Member) × (handle 2 busy (message "d") ≡ some bus')
    × Handled (pair_members leaving) (message "d") bus' ring
unfolding dec_le
handle_everyone_example =
    handle_everyone busy (message "d") (quiet 1 []) (quiet 2 leaving ∷ []) 2 (quiet 1 [])
      (pair-Represents leaving) full_buffer-InRange (omega arith) (inl refl) refl

abbrev at_rest : MessageBus
at_rest = record { pool = pair []; buffer = full_buffer }

-- Two messages, one of them with a UUID that the buffer knows.
abbrev two : List Message
two = message "d" ∷ message "c" ∷ []

run_refines_example :
    (bus' : MessageBus) × (run 2 at_rest two ≡ some bus')
    × Served (announce_all two (circle (pair_members []))) 2 bus'
run_refines_example =
    run_refines at_rest two (pair_members []) 2 (pair-Represents []) full_buffer-InRange
      (
        record { drained = refl; low = omega arith },
        (record { drained = refl; low = omega arith }, tt),
      )
      (omega arith) (omega arith)

-- A single pod that leaves.
abbrev alone : MessageBus
alone = record {
  pool = record {
    heap = update (λ _. none) 1 (conn_at (quiet 1 leaving) 1);
    current = some 1;
    max_id = 1;
  };
  buffer = full_buffer;
}

alone-Represents : Represents alone.pool (quiet 1 leaving ∷ [])
unfolding update ℕ_discrete
alone-Represents = record {
  current = refl;
  ring = (refl, tt);
  distinct = (tt, tt);
  bounded = (omega arith, tt);
}

handle-Gone_example :
    RunsEmpty full_buffer 1 alone.pool
    × (prepare_rounds 2 full_buffer alone.pool ≡ none)
    × (handle 10 alone (message "d") ≡ none)
unfolding dec_le
handle-Gone_example =
    handle-Gone alone (message "d") (quiet 1 leaving) [] 10 alone-Represents full_buffer-InRange
      ((disconnecting, refl), tt)

-- The second pod has called Disconnect.
abbrev ending : ConnectionPool
ending = record (pair []) {
  heap =
      update (pair []).heap 2
        (record (conn_at (quiet 2 []) 1) { feedback_chan = msg_disconnect ∷ [] });
}

ending_fed : feed (pair []) 2 (disconnect (new_pod false)).feedback_chan ≡ some ending
unfolding feed store update ℕ_discrete disconnect new_pod
ending_fed = refl

disconnect_lem_example :
    (p'' : ConnectionPool) × (c : PodConnection) × (prepare_next ending full_buffer
      ≡ some (some disconnecting, p''))
    × Represents p'' (quiet 1 [] ∷ [])
    × (p''.heap 2 ≡ some c)
    × (c.closed ≡ true)
    × (c.message_chan ≡ [])
    × (send (disconnect (new_pod false)) (message "late") ≡ (none, disconnect (new_pod false)))
    × (send (start (disconnect (new_pod false)) []) (message "late")
        ≡ (none, start (disconnect (new_pod false)) []))
unfolding new_pod
disconnect_lem_example =
    disconnect_lem (new_pod false) full_buffer replayed_now (pair []) ending (quiet 1 [])
      (quiet 2 []) [] [] (message "late") full_buffer-iter (pair-Represents []) refl refl
      (omega arith) ending_fed
