-- ===== src/Tests/Lines.antt =====
-- Two messages that are sent at once, of which the second one comes first.
use grav.Common.{◌≡◌, ◌≢◌, ◌⊎◌, ◌↔◌, ◌≤◌, refl, inr, arith, false, [], ◌∷◌, none, some, length}
use mathlib.Core.List.{Perm}
use grav.PodConnection.{new_pod_connection, send, run_send, disconnect}
use grav.PodConnection.Delivery.{
  Line, Reachable, started, stepped, sent_one, ran, underway, default_pod_chan_size,
  run_send-Reachable,
}
use grav.Tests.Samples.{message}

abbrev line : Line
line = record {
  conn = record (new_pod_connection 1 []) {
    sends = some (message "a") ∷ [];
    message_chan = some (message "b") ∷ [];
  };
  got = [];
  sent = some (message "a") ∷ some (message "b") ∷ [];
}

line-Reachable : Reachable line
unfolding send run_send new_pod_connection
line-Reachable =
    stepped
      (stepped (stepped (started 1 []) (sent_one (some (message "a"))))
        (sent_one (some (message "b"))))
      (ran (some (message "a") ∷ []) [] (some (message "b")) line.conn refl (inr (omega arith))
        refl)

run_send-Reachable_example :
    (run_send (some (message "a")) line.conn ≢ none)
    × ((disconnect line.conn ≡ none) ↔ (line.conn.connected ≡ false))
    × (length line.conn.message_chan ≤ default_pod_chan_size)
    × ((line.conn.connected ≡ false) ⊎ Perm (underway line) line.sent)
run_send-Reachable_example = run_send-Reachable line (some (message "a")) line-Reachable
