-- ===== src/Websocket/Frames.antt =====
-- What one end of a websocket writes, read at the other end.
use grav.Common.{
  ℕ, ◌≡◌, refl, sym, ap, ◌∙◌, arith, String, Bool, true, false, List, [], ◌∷◌, Option, none, ◌++◌,
  map, map-append, append_assoc, append-nil, some, All, bytes_discrete, ℕ_discrete,
}
use grav.Message.{Message, Codec, Encodes, msg_from_bytes}
use grav.Transport.{ReadResult, read_withdraw, read_msg}
use grav.Websocket.{
  Frame, text_message, binary_message, Conn, written_ok, send_msg, send_withdraw, receive_msg,
  withdraw_message, withdraw_ack_message,
}

-- What a hub sends over a mesh connection.
pub data Outgoing : Type 0 where
  out_msg : Message → Outgoing
  out_withdraw : (ack : Bool) → Outgoing

abbrev pub arrives : Outgoing → ReadResult
arrives (out_msg m) = read_msg m
arrives (out_withdraw ack) = read_withdraw ack

-- The last frame that was written.
abbrev pub last : List Frame → Option Frame
last [] = none
last (f ∷ []) = some f
last (f ∷ g ∷ fs) = last (g ∷ fs)

pub last-append : (fs : List Frame) (f : Frame) → last (fs ++ (f ∷ [])) ≡ some f
last-append [] f = refl
last-append (g ∷ []) f = refl
last-append (g ∷ h ∷ fs) f = last-append (h ∷ fs) f

module _ (codec : Codec) where
  abbrev pub Sendable : Outgoing → Type 0
  Sendable (out_msg m) = Encodes codec m
  Sendable (out_withdraw ack) = Unit {0}

  abbrev pub send_out : Conn → Outgoing → Conn
  send_out c (out_msg m) = (send_msg codec written_ok c m).1
  send_out c (out_withdraw ack) = (send_withdraw written_ok c ack).1

  abbrev pub send_all : Conn → List Outgoing → Conn
  send_all c [] = c
  send_all c (o ∷ os) = send_all (send_out c o) os

  module _ (uuid : String) (now : ℕ) where
    abbrev pub read_all : List Frame → List ReadResult
    read_all = map (λ f. receive_msg codec uuid now (some f))

    -- Each of them is one frame, which is read as what was sent.
    pub send_out_lem :
        (c : Conn) (o : Outgoing)
        → Sendable o
        → (f : Frame) × ((send_out c o).written ≡ c.written ++ (f ∷ []))
          × (receive_msg codec uuid now (some f) ≡ arrives o)
    unfolding send_msg send_withdraw receive_msg msg_from_bytes bytes_discrete ℕ_discrete
    send_out_lem c (out_msg m) e = (
      record { frame_type = binary_message; payload = e.bytes },
      ground (arith, e.marshalled),
      ground (arith, e.unmarshalled),
    )
    send_out_lem c (out_withdraw true) e =
        (record { frame_type = text_message; payload = withdraw_ack_message }, refl, refl)
    send_out_lem c (out_withdraw false) e =
        (record { frame_type = text_message; payload = withdraw_message }, refl, refl)

    send_all_lem :
        (c : Conn) (os : List Outgoing)
        → All Sendable os
        → read_all (send_all c os).written ≡ read_all c.written ++ map arrives os
    send_all_lem c [] h = sym (append-nil (read_all c.written))
    send_all_lem c (o ∷ os) h =
        let (f, w, r) = send_out_lem c o h.0 in
        let rest = map arrives os in
        let one : read_all (send_out c o).written ≡ read_all c.written ++ (arrives o ∷ []) =
          ap read_all w
          ∙ map-append (λ x. receive_msg codec uuid now (some x)) c.written (f ∷ [])
          ∙ ap (λ x. read_all c.written ++ (x ∷ [])) r in
        send_all_lem (send_out c o) os h.1
        ∙ ap (λ xs. xs ++ rest) one
        ∙ append_assoc (read_all c.written) (arrives o ∷ []) rest

    -- Messages that JSON gives back, and withdraws with or without an ack, that are written to a
    -- websocket one after another without an error are read at its other end as the same messages
    -- and withdraws, in the same order.
    pub receive-send_all :
        (node_uuid : String) (os : List Outgoing)
        → All Sendable os
        → read_all (send_all (record { node_uuid = node_uuid; written = [] }) os).written
          ≡ map arrives os
    receive-send_all node_uuid os h =
        send_all_lem (record { node_uuid = node_uuid; written = [] }) os h
