-- ===== src/Tests/Buffers.antt =====
-- The message buffer.
use grav.Common.{
  ◌≡◌, refl, List, [], ◌∷◌, ◌++◌, map, Option, none, some, arith, string_discrete, has, lookup,
  is_some, ite, true, false, String,
}
use grav.Message.{Message}
use grav.MsgBuffer.{MsgBuffer, new_msg_buffer, push, push_all, iter}
use grav.MsgBuffer.Valid.{IsValid}
use grav.MsgBuffer.Recent.{push_window, view, push_refines}
use grav.MsgBuffer.Replay.{iter-push_all}
use grav.MsgBuffer.Evict.{push_oldest_again}
use grav.Tests.Samples.{message, full_buffer}

abbrev four : List Message
four = message "a" ∷ message "b" ∷ message "c" ∷ message "d" ∷ []

iter-push_all_example :
    (b : MsgBuffer) × (push_all (new_msg_buffer 3) four ≡ some b)
    × (iter b ≡ some (map some (message "b" ∷ message "c" ∷ message "d" ∷ [])))
unfolding has string_discrete
iter-push_all_example = iter-push_all 3 four (omega arith) (refl, (refl, (refl, (refl, tt))))

full_buffer-IsValid : IsValid full_buffer
unfolding lookup has string_discrete
full_buffer-IsValid = record {
  positive = omega arith;
  bounded = omega arith;
  start_in = omega arith;
  unfilled = λ h. absurd (omega arith);
  next_in = omega arith;
  distinct = (refl, (refl, tt));
  keyed = λ u. keyed_lem (string_discrete "b" u) (string_discrete "c" u);
  own = λ u m e. own_lem u m (string_discrete "b" u) (string_discrete "c" u) e;
}
  where
    keyed_lem :
        {u : String} (d : Dec (◌≡◌ {A = String} "b" u)) (e : Dec (◌≡◌ {A = String} "c" u))
        → is_some (ite d (some (message "b")) (ite e (some (message "c")) none))
          ≡ ite e true (ite d true false)
    keyed_lem d e = ground arith

    own_lem :
        (u : String) (m : Message) (d : Dec (◌≡◌ {A = String} "b" u))
        (e : Dec (◌≡◌ {A = String} "c" u))
        → ite d (some (message "b")) (ite e (some (message "c")) none) ≡ some m
        → m.uuid ≡ u
    own_lem u m d e h = ground arith

push_refines_example :
    (b' : MsgBuffer) × (push full_buffer (message "d") ≡ some b')
    × IsValid b'
    × (view b' ≡ push_window 2 (view full_buffer) (some (message "d")))
unfolding has string_discrete
push_refines_example = push_refines full_buffer (message "d") full_buffer-IsValid refl

push_oldest_again_example :
    (b' : MsgBuffer) × (ms : List (Option Message)) × (push full_buffer (message "b") ≡ some b')
    × (iter b' ≡ some (ms ++ (none ∷ [])))
push_oldest_again_example = push_oldest_again full_buffer (message "b") refl refl
