-- ===== src/Tests/Crowds.antt =====
-- The bus and the pool while pods report and connect.
use grav.Common.{
  ℕ, ◌≢◌, ◌≡◌, ◌⊎◌, refl, List, [], ◌∷◌, ◌++◌, none, some, arith, inl, inr, dec_le, subst, ap, ◌∙◌,
}
use grav.PodConnection.{Feedback, msg_disconnect, msg_success, new_pod_connection}
use grav.Pool.{ConnectionPool, disconnecting, prepare_next_racing, removing, update, insert}
use grav.Instance.Ring.{IsClean}
use grav.Pool.Ring.{Member, conn_at, Represents}
use grav.Pool.Refines.{dead_at, fresh_member}
use grav.Pool.Prepare.{stays, fate, status, member, drained}
use grav.Pool.Race.{prepare_next_racing_goes}
use grav.Bus.{MessageBus, new_message_bus, add_pod}
use grav.Busy.{Arrival, reports, connects, handle_busy}
use grav.Busy.Everyone.{HubIn, HandledBusy, handle_busy_everyone}
use grav.Busy.Schedule.{quiet}
use grav.Busy.Reach.{Reachable, first, handle_busy-Reachable}
use grav.Bus.Race.{traverse_round_racing, start_twice}
use grav.Bus.Lap.{got}
use grav.Tests.Rings.{full_buffer-iter}
use grav.Tests.Samples.{
  quiet as calm, message, full_buffer, full_buffer-InRange, pair, pair_members, pair-Represents,
}

abbrev leaving : List Feedback
leaving = msg_disconnect ∷ []

abbrev busy : MessageBus
busy = record { pool = pair leaving; buffer = full_buffer }

-- Before the first round a pod connects; in the lap the new pod leaves.
abbrev before : List (List Arrival)
before = (connects [] ∷ []) ∷ [] ∷ [] ∷ []

abbrev during : List (List Arrival)
during = [] ∷ (reports 3 leaving ∷ reports 1 (msg_success ∷ []) ∷ []) ∷ [] ∷ []

prepare_next_racing_goes_example :
    (p' : ConnectionPool) × (prepare_next_racing [] (pair leaving) full_buffer
      ≡ some (some disconnecting, p'))
    × Represents p' (calm 1 [] ∷ member 2 (drained (calm 2 leaving).body) ∷ [])
    × (p'.heap 3 ≡ some (dead_at (fresh_member 3 []) 2))
    × ((disconnecting ≡ removing) ⊎ (fate (status (drained (calm 2 leaving).body)) ≡ stays))
unfolding dec_le
prepare_next_racing_goes_example =
    prepare_next_racing_goes full_buffer [] (calm 1 []) (calm 2 leaving) [] disconnecting
      (pair-Represents leaving) refl

hub_inside : HubIn 1 (pair_members leaving)
hub_inside = record {
  inside = inl refl;
  clean = λ m k e. elim k [
    | inl z ↦
        subst (λ (x : Member). IsClean x.body) z (record { nothing_failed = refl; successes = tt })
    | inr (inl z) ↦ absurd (two_ne_one m z e)
    | inr (inr z) ↦ absurd z
  ];
}
  where
    two_ne_one : (m : Member) → calm 2 leaving ≡ m → m.id ≡ 1 → ⊥
    two_ne_one m z e = let q : ◌≡◌ {A = ℕ} 2 1 = ap (λ (x : Member). x.id) z ∙ e in omega arith

two_ne : ◌≡◌ {A = ℕ} 2 1 → ⊥
two_ne e = omega arith

three_ne : ◌≡◌ {A = ℕ} 3 1 → ⊥
three_ne e = omega arith

handle_busy_everyone_example :
    (bus' : MessageBus) × (ring : List Member) × (handle_busy before during busy (message "d")
      ≡ some bus')
    × HandledBusy 1 (pair_members leaving) (message "d") bus' ring
unfolding dec_le
handle_busy_everyone_example =
    handle_busy_everyone busy (message "d") 1 (calm 1 []) (calm 2 leaving ∷ []) before during
      (pair-Represents leaving) full_buffer-InRange hub_inside ((tt, tt), (tt, (tt, tt)))
      (tt, (((λ e. absurd (three_ne e)), ((λ e. (tt, tt)), tt)), (tt, tt))) (omega arith)
      (omega arith)

-- The bus of an instance whose hub has connected.
abbrev hub_bus : MessageBus
hub_bus = record {
  pool = record {
    heap = update (λ _. none) 1 (conn_at (calm 1 []) 1);
    current = some 1;
    max_id = 1;
  };
  buffer = new_message_bus.buffer;
}

hub_bus-Reachable : Reachable hub_bus
unfolding add_pod new_message_bus insert new_pod_connection
hub_bus-Reachable = first [] tt refl

handle_busy-Reachable_example :
    (old : List Member) × Represents hub_bus.pool old
    × (n : ℕ) × (bus' : MessageBus) × (ring : List Member) × (handle_busy
          (((connects leaving ∷ []) ∷ []) ++ quiet n)
          (((reports 2 leaving ∷ []) ∷ []) ++ quiet n)
          hub_bus
          (message "d")
        ≡ some bus')
    × HandledBusy 1 old (message "d") bus' ring
    × Reachable bus'
handle_busy-Reachable_example =
    handle_busy-Reachable (message "d") ((connects leaving ∷ []) ∷ [])
      ((reports 2 leaving ∷ []) ∷ []) hub_bus-Reachable ((tt, tt), tt)
      (((λ e. absurd (two_ne e)), tt), tt)

start_twice_example :
    (s' : ℕ) × (ahead : ConnectionPool) × (traverse_round_racing leaving full_buffer
        (message "d")
        2
        1
        (pair [])
      ≡ some (s', 2, 2, ahead))
    × (s' ≢ 2)
    × Represents ahead (calm 2 [] ∷ [] ++ (got (message "d") (calm 1 []) ∷ []))
unfolding dec_le
start_twice_example =
    start_twice full_buffer (some (message "b") ∷ some (message "c") ∷ []) (message "d") leaving
      (calm 1 []) (calm 2 []) [] disconnecting full_buffer-iter (pair-Represents []) refl
