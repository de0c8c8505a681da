-- ===== src/Websocket/Withdraw.antt =====
-- A node that withdraws, and the hub at the other end of the websocket.
use grav.Common.{
  ℕ, ◌≡◌, ap, ◌∙◌, arith, String, Bool, true, false, List, none, some, lookup, insert,
  lookup-insert,
}
use grav.Message.{Message, Codec}
use grav.Transport.{ReadResult, read_withdraw, Sending, Wire}
use grav.ConnectionHandler.{
  ConnectionHandler, node_withdrawn, send, read, signal, done, send_withdraw, set_peer_withdrawn,
}
use grav.Hub.{Hub}
use grav.Hub.Traffic.{scan_failed_mesh_connections}
use grav.Hub.Reach.{Reachable, stepped, received}
use grav.Hub.Keyed.{lookup-scan}
use grav.Websocket
use grav.Websocket.{Conn, Frame, written_ok, receive_msg}
use grav.Websocket.Frames.{out_withdraw, send_out_lem, last, last-append}

module _ (codec : Codec) (id : String) (now : ℕ) (conn : Conn) where
  -- What is read of the frame with which the node says that it withdraws.
  abbrev pub notice : ReadResult
  notice = receive_msg codec id now (last (Websocket.send_withdraw written_ok conn false).1.written)

  notice_lem : notice ≡ read_withdraw false
  notice_lem =
      let (frame, written, arrives) = send_out_lem codec id now conn (out_withdraw false) tt in
      ap (receive_msg codec id now) (ap last written ∙ last-append conn.written frame) ∙ arrives

  -- Where the hub signals a connection whose channels are empty, the call returns, and the
  -- goroutine of the connection, whose frame is taken by the websocket, ends with Done called. The
  -- hub at the other end, in any state that can be reached, reads the frame as a withdraw and stops
  -- reading, sends nothing over the connection from then on, and has no connection under that UUID
  -- after its next scan.
  pub withdraw_lem :
      (a c : ConnectionHandler) (h : Hub) (uuid : String) (w : Wire) (msg : Message)
      → (sends : List Sending) → {b : Bool} → Reachable b h
      → lookup uuid h.mesh_connections ≡ some c
      → a.signaler.withdraw_chan ≡ 0
      → a.signaler.done_chan ≡ 0
      → let signalled = record a { signaler = (signal a.signaler).1 } in
        let left = (read c notice).0 in
        let h' = record h { mesh_connections = insert uuid left h.mesh_connections } in
        ((signal a.signaler).0 ≡ true)
        × ((send_withdraw signalled true).0 ≡ true)
        × ((send_withdraw signalled true).1.signaler.done_chan ≡ 1)
        × (read c notice ≡ (left, false, none))
        × (send w left msg sends ≡ (node_withdrawn, left, sends))
        × (lookup uuid (scan_failed_mesh_connections h').mesh_connections ≡ none)
  unfolding signal send_withdraw done read send set_peer_withdrawn
  withdraw_lem a c h uuid w msg sends r l empty fresh =
      let heard : read c notice ≡ read c (read_withdraw false) = ap (λ x. read c x) notice_lem in
      let left = (read c notice).0 in
      let reach' = stepped r (received h uuid c notice l) in
      let scanned =
        lookup-scan (record h { mesh_connections = insert uuid left h.mesh_connections }) uuid
          reach' in
      (
        ground (arith, empty),
        ground (arith, empty, fresh),
        ground (arith, empty, fresh),
        ground (arith, heard),
        ground (arith, heard),
        ground (arith, heard, scanned, lookup-insert uuid uuid left h.mesh_connections),
      )
