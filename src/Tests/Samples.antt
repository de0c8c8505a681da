-- ===== src/Tests/Samples.antt =====
-- Messages and rings that the tests share.
use grav.Common.{ℕ, refl, String, List, [], ◌∷◌, none, some, arith, ℕ_discrete}
use grav.Message.{Message}
use grav.MsgBuffer.{MsgBuffer}
use grav.MsgBuffer.Range.{InRange}
use grav.PodConnection.{Feedback}
use grav.Pool.{ConnectionPool, update}
use grav.Pool.Ring.{Member, conn_at, Represents}

abbrev pub message : String → Message
message uuid = record {
  uuid = uuid;
  parent_id = "";
  reply_to = "";
  msg_type = "grav.default";
  timestamp = 0;
  payload = [];
}

-- A buffer of two that has been round once.
abbrev pub full_buffer : MsgBuffer
full_buffer = record {
  msgs = ("b", message "b") ∷ ("c", message "c") ∷ [];
  order = "c" ∷ "b" ∷ [];
  limit = 2;
  start_index = 1;
  next_index = 0;
}

pub full_buffer-InRange : InRange full_buffer
full_buffer-InRange = omega arith

abbrev pub quiet : ℕ → List Feedback → Member
quiet id feedback = record {
  id = id;
  body = record { sends = []; message_chan = []; feedback_chan = feedback; failed = [] };
}

-- Two pods: the first stays, and the second has sent `feedback`.
abbrev pub pair : List Feedback → ConnectionPool
pair feedback = record {
  heap = update (update (λ _. none) 1 (conn_at (quiet 1 []) 2)) 2 (conn_at (quiet 2 feedback) 1);
  current = some 1;
  max_id = 2;
}

abbrev pub pair_members : List Feedback → List Member
pair_members feedback = quiet 1 [] ∷ quiet 2 feedback ∷ []

pub pair-Represents :
    (feedback : List Feedback) → Represents (pair feedback) (pair_members feedback)
unfolding update ℕ_discrete
pair-Represents feedback = record {
  current = refl;
  ring = (refl, (refl, tt));
  distinct = (((λ e. omega arith), tt), (tt, tt));
  bounded = (omega arith, (omega arith, tt));
}
