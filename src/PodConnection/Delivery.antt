-- ===== src/PodConnection/Delivery.antt =====
-- The goroutines that `send` starts, which run in any order, with the pod that reads the messageChan.
use grav.Common.{
  ℕ, ◌<◌, ◌≤◌, ◌≡◌, ◌≢◌, ◌⊎◌, ◌↔◌, Bool-cases, refl, sym, ap, subst, ◌∙◌, arith, true, false, not,
  List, [], ◌∷◌, ◌++◌, map, append_assoc, append-nil, Option, none, some, inl, inr, length,
  length-append,
}
use mathlib.Core.List.{Perm, perm_middle}
use mathlib.Core.List.Perm
use grav.Message.{Message}
use grav.PodConnection.{
  PodConnection, Feedback, new_pod_connection, send, send_all, run_send, check_status, disconnect,
  flush_failed,
}

abbrev pub default_pod_chan_size : ℕ
default_pod_chan_size = 128

-- A connection, with what the pod has read of its channel and what the bus has sent.
pub record Line : Type 0 where
  pub conn : PodConnection
  pub got : List (Option Message)
  pub sent : List (Option Message)

pub data LineStep (l : Line) : Line → Type 0 where
  sent_one :
      (msg : Option Message)
      → LineStep l (record l { conn = send l.conn msg; sent = l.sent ++ (msg ∷ []) })
  ran :
      (xs ys : List (Option Message)) (msg : Option Message) (c : PodConnection)
      → l.conn.sends ≡ xs ++ (msg ∷ ys)
      → (l.conn.connected ≡ false) ⊎ (length l.conn.message_chan < default_pod_chan_size)
      → run_send msg (record l.conn { sends = xs ++ ys }) ≡ some c
      → LineStep l (record l { conn = c })
  read_one :
      (msg : Option Message) (rest : List (Option Message))
      → l.conn.message_chan ≡ msg ∷ rest
      → LineStep l
          (record l { conn = record l.conn { message_chan = rest }; got = l.got ++ (msg ∷ []) })
  reported :
      (feedback : List Feedback)
      → LineStep l (record l { conn = record l.conn { feedback_chan = feedback } })
  checked : LineStep l (record l { conn = (check_status l.conn).1 })
  flushed :
      LineStep l (record l { conn = flush_failed l.conn; sent = l.sent ++ map some l.conn.failed })
  disconnected :
      (c : PodConnection) → disconnect l.conn ≡ some c → LineStep l (record l { conn = c })

pub data Reachable : Line → Type 0 where
  started :
      (id : ℕ) (feedback : List Feedback)
      → Reachable (record { conn = new_pod_connection id feedback; got = []; sent = [] })
  stepped : {l m : Line} → Reachable l → LineStep l m → Reachable m

-- What the pod has read, what waits in the channel, and what the goroutines have still to send.
abbrev pub underway : Line → List (Option Message)
underway l = l.got ++ (l.conn.message_chan ++ l.conn.sends)

record IsSound (l : Line) : Type 0 where
  open_while : l.conn.closed ≡ not l.conn.connected
  room : length l.conn.message_chan ≤ default_pod_chan_size
  complete : (l.conn.connected ≡ false) ⊎ Perm (underway l) l.sent

send_all_lem :
    (p : PodConnection) (msgs : List (Option Message))
    → send_all p msgs ≡ record p { sends = p.sends ++ msgs }
unfolding send_all send
send_all_lem p [] = ap (λ ss. record p { sends = ss }) (sym (append-nil p.sends))
send_all_lem p (msg ∷ msgs) =
    send_all_lem (send p msg) msgs
    ∙ ap (λ ss. record p { sends = ss }) (append_assoc p.sends (msg ∷ []) msgs)

-- More messages are sent.
underway-append :
    (l : Line) (msgs : List (Option Message))
    → Perm (underway l) l.sent
    → Perm (l.got ++ (l.conn.message_chan ++ (l.conn.sends ++ msgs))) (l.sent ++ msgs)
underway-append l msgs p =
    subst (λ xs. Perm xs (l.sent ++ msgs))
      (append_assoc l.got (l.conn.message_chan ++ l.conn.sends) msgs
        ∙ ap (λ xs. l.got ++ xs) (append_assoc l.conn.message_chan l.conn.sends msgs))
      (Perm.append_right msgs p)

-- One of the goroutines has put its message into the channel.
underway_ran :
    (l : Line) (xs ys : List (Option Message)) (msg : Option Message)
    → l.conn.sends ≡ xs ++ (msg ∷ ys)
    → Perm (underway l) l.sent
    → Perm (l.got ++ ((l.conn.message_chan ++ (msg ∷ [])) ++ (xs ++ ys))) l.sent
underway_ran l xs ys msg e p =
    let chan = l.conn.message_chan in
    let same : underway l ≡ l.got ++ (chan ++ (xs ++ (msg ∷ ys))) =
      ap (λ ss. l.got ++ (chan ++ ss)) e in
    subst (λ zs. Perm (l.got ++ zs) l.sent) (sym (append_assoc chan (msg ∷ []) (xs ++ ys)))
      (Perm.trans (Perm.append_left l.got (Perm.append_left chan (Perm.symm (perm_middle xs ys))))
        (subst (λ zs. Perm zs l.sent) same p))

start-IsSound :
    (id : ℕ) (feedback : List Feedback)
    → IsSound (record { conn = new_pod_connection id feedback; got = []; sent = [] })
unfolding new_pod_connection
start-IsSound id feedback = record {
  open_while = refl;
  room = omega arith;
  complete = inr (Perm.refl []);
}

ran-IsSound :
    (l : Line) (xs ys : List (Option Message)) (msg : Option Message) (c : PodConnection)
    → l.conn.sends ≡ xs ++ (msg ∷ ys)
    → (l.conn.connected ≡ false) ⊎ (length l.conn.message_chan < default_pod_chan_size)
    → run_send msg (record l.conn { sends = xs ++ ys }) ≡ some c
    → IsSound l
    → IsSound (record l { conn = c })
unfolding run_send
ran-IsSound l xs ys msg c e space done i = elim (Bool-cases l.conn.connected) [
  | inl on ↦
      let chan = l.conn.message_chan in
      let same : record l.conn { sends = xs ++ ys; message_chan = chan ++ (msg ∷ []) } ≡ c =
        ground (arith, done, on, i.open_while) in
      subst (λ d. IsSound (record l { conn = d })) same
        (record {
          open_while = i.open_while;
          room = ground (arith, space, on, length-append chan (msg ∷ []));
          complete = elim i.complete [
            | inl off ↦ inl off
            | inr p ↦ inr (underway_ran l xs ys msg e p)
          ];
        })
  | inr off ↦
      let same : record l.conn { sends = xs ++ ys } ≡ c = ground (arith, done, off) in
      subst (λ d. IsSound (record l { conn = d })) same
        (record { open_while = i.open_while; room = i.room; complete = inl off })
]

step-IsSound : {l m : Line} → LineStep l m → IsSound l → IsSound m
unfolding send check_status flush_failed disconnect
step-IsSound {l} (sent_one msg) i = record {
  open_while = i.open_while;
  room = i.room;
  complete = elim i.complete [ inl off ↦ inl off | inr p ↦ inr (underway-append l (msg ∷ []) p) ];
}
step-IsSound {l} (ran xs ys msg c e space done) i = ran-IsSound l xs ys msg c e space done i
step-IsSound {l} (read_one msg rest e) i = record {
  open_while = i.open_while;
  room = ground (arith, e, i.room);
  complete = elim i.complete [
    | inl off ↦ inl off
    | inr p ↦ inr (
        subst (λ xs. Perm xs l.sent)
          (ap (λ ms. l.got ++ (ms ++ l.conn.sends)) e
            ∙ sym (append_assoc l.got (msg ∷ []) (rest ++ l.conn.sends)))
          p)
  ];
}
step-IsSound (reported feedback) i = record {
  open_while = i.open_while;
  room = i.room;
  complete = i.complete;
}
step-IsSound checked i = record { open_while = i.open_while; room = i.room; complete = i.complete }
step-IsSound {l} flushed i =
    let msgs = map some l.conn.failed in
    subst (λ d. IsSound (record l { conn = record d { failed = [] }; sent = l.sent ++ msgs }))
      (sym (send_all_lem l.conn msgs))
      (record {
        open_while = i.open_while;
        room = i.room;
        complete = elim i.complete [ inl off ↦ inl off | inr p ↦ inr (underway-append l msgs p) ];
      })
step-IsSound {l} (disconnected c e) i =
    let same : record l.conn { connected = false; closed = true } ≡ c = ground (arith, e) in
    subst (λ d. IsSound (record l { conn = d })) same
      (record { open_while = refl; room = i.room; complete = inl refl })

Reachable-IsSound : {l : Line} → Reachable l → IsSound l
Reachable-IsSound (started id feedback) = start-IsSound id feedback
Reachable-IsSound (stepped r s) = step-IsSound s (Reachable-IsSound r)

-- Over any sequence of sends, runs of their goroutines in any order, reads by the pod, feedback,
-- status checks, flushes and a disconnect of a connection: no goroutine sends on a closed channel,
-- disconnect panics exactly when the connection was disconnected before, the channel never holds
-- more than its size, and as long as it is connected, what the pod has read, what the channel holds
-- and what the goroutines have still to send is a permutation of what was sent.
pub run_send-Reachable :
    (l : Line) (msg : Option Message)
    → Reachable l
    → (run_send msg l.conn ≢ none)
      × ((disconnect l.conn ≡ none) ↔ (l.conn.connected ≡ false))
      × (length l.conn.message_chan ≤ default_pod_chan_size)
      × ((l.conn.connected ≡ false) ⊎ Perm (underway l) l.sent)
unfolding run_send disconnect
run_send-Reachable l msg r =
    let i = Reachable-IsSound r in
    ((λ e. ground (arith, e, i.open_while)), ground (arith, i.open_while), i.room, i.complete)
