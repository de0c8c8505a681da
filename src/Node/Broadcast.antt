-- ===== src/Node/Broadcast.antt =====
-- What the bus promises to its pods.
use grav.Common.{
  ℕ, ◌≡◌, ◌⊎◌, refl, sym, ap, ◌∙◌, subst, arith, String, true, List, [], ◌∷◌, ◌++◌, some, inl, inr,
  All, All-map, length, append-nil, Bool-cases, string_discrete,
}
use mathlib.Core.List.{Perm}
use grav.Message.{Message}
use grav.MsgBuffer.{default_buffer_size, new_msg_buffer}
use grav.PodConnection.{PodConnection}
use grav.Pool.{new_connection_pool}
use grav.Pool.Ring.{Represents, Member, conn_at, head_or}
use grav.Pool.Refines.{new_connection_pool-Represents, insert_empty_refines, fresh_member}
use grav.Bus.{MessageBus, new_message_bus, add_pod, handle}
use grav.Bus.Members.{In, HasId}
use grav.Pod.{FuncResult, ok, handle as handle_by, is_ok, receive, report}
use grav.Pod.Life.{receive-handle}
use grav.Instance.Ring.{find_id, successes-failures}
use grav.Instance.Total.{new_buffer-InRange}
use grav.Node.{Owner, Node, newcomer, Reachable, started, stepped}
use grav.Node.Fair.{
  Owns, IsFaithful, Listens, Fair, to_retry, whereabouts, newcomer-Fair, newcomer-IsFaithful,
}
use grav.Node.Steps.{IsSound, Among, at_member}
use grav.Node.Runs.{step-IsSound, handle-Fair}

started-IsSound :
    (f : Message → FuncResult) (bus : MessageBus)
    → ((msg : Message) → f msg ≡ ok)
    → add_pod new_message_bus [] ≡ some bus
    → IsSound (record { bus = bus; queue = []; owners = λ a. newcomer f; ids = 1 ∷ [] })
unfolding add_pod new_message_bus new_connection_pool
started-IsSound f bus h e =
    let (p, i, r) = insert_empty_refines [] new_connection_pool-Represents in
    let same : record { pool = p; buffer = new_msg_buffer default_buffer_size } ≡ bus =
      ground (arith, i, e) in
    subst (λ b. IsSound (record { bus = b; queue = []; owners = λ a. newcomer f; ids = 1 ∷ [] }))
      same
      (record {
        ring = fresh_member 1 [] ∷ [];
        represents = r;
        buffered = new_buffer-InRange;
        first = inl refl;
        hub = newcomer-IsFaithful f h;
        present = λ a j k. elim j [ inl z ↦ inl z | inr z ↦ absurd z ];
        fair = (newcomer-Fair f 1, tt);
      })

Reachable-IsSound : {n : Node} → Reachable n → IsSound n
Reachable-IsSound (started f bus h e) = started-IsSound f bus h e
Reachable-IsSound (stepped r s) = step-IsSound s (Reachable-IsSound r)

-- Take a node whose pods ask for no replay, and any order of steps in which pods connect, send and
-- disconnect, except that the first pod, that of the hub, neither fails nor disconnects, the bus
-- handles the messages of busChan one after another, goroutines of send put their messages into a
-- channel that has room, and pods take messages and fail on some or not. Then the pool represents a
-- ring with the connection of the hub. For every member of it, what its pod has taken without
-- failing, what its channel holds, what the goroutines have still to send, and what failed and
-- waits in its failed queue or its feedback is together a permutation of what the bus has handled
-- since the pod connected. The bus handles any next message without a panic.
pub nothing_lost :
    {n : Node} (msg : Message)
    → Reachable n
    → (ring : List Member) × Represents n.bus.pool ring
      × HasId 1 ring
      × All (λ m. Perm (whereabouts (n.owners m.id) m) (n.owners m.id).told) ring
      × ((fuel : ℕ) × (bus : MessageBus) × (handle fuel n.bus msg ≡ some bus))
nothing_lost {n} msg r =
    let s = Reachable-IsSound r in
    let (bus, ring, e, r', v, stay, fair) = handle-Fair n msg s s.ring refl in
    (
      s.ring,
      s.represents,
      s.first,
      All-map _ _ s.ring (λ (m : Member) (h : Fair (n.owners m.id) m). h.complete) s.fair,
      (length s.ring, bus, e),
    )

-- The connection of a pod, and what is true of it.
member_of :
    (n : Node) (a : ℕ) (s : IsSound n)
    → Among a n.ids
    → IsFaithful (n.owners a)
    → (m : Member) × In m s.ring × (m.id ≡ a) × Fair (n.owners m.id) m
member_of n a s i f = find_id (λ m. Fair (n.owners m.id) m) a s.ring s.fair (s.present a i f)

-- Nothing is kept for a faithful pod.
faithful_whereabouts :
    (o : Owner) (m : Member)
    → Fair o m
    → IsFaithful o
    → Perm (o.settled ++ (m.message_chan ++ m.sends)) o.told
faithful_whereabouts o m h f =
    let c = h.clean f in
    let none_kept : to_retry m.body ≡ [] =
      ground (arith, c.nothing_failed, successes-failures m.feedback_chan c.successes) in
    subst (λ ys. Perm (o.settled ++ (m.message_chan ++ ys)) o.told)
      (ap (λ ys. m.sends ++ ys) none_kept ∙ append-nil m.sends) h.complete

-- In every such node, a pod whose function returns nil for every message and that has not
-- disconnected still has a connection that is connected, and what the pod has taken, what its
-- channel holds and what the goroutines have still to send is together a permutation of what the
-- bus has handled since the pod connected, whatever the other pods do.
pub broadcast :
    {n : Node} (a : ℕ)
    → Reachable n
    → Among a n.ids
    → IsFaithful (n.owners a)
    → (c : PodConnection) × (n.bus.pool.heap a ≡ some c)
      × (c.connected ≡ true)
      × Perm ((n.owners a).settled ++ (c.message_chan ++ c.sends)) (n.owners a).told
broadcast {n} a r i f =
    let s = Reachable-IsSound r in
    let (m, j, e, h) = member_of n a s i f in
    let (k, l) = at_member n.bus.pool.heap (head_or s.ring 0) s.ring m s.represents.ring j in
    (
      conn_at m k,
      subst (λ x. n.bus.pool.heap x ≡ some (conn_at m k)) e l,
      refl,
      subst (λ x. Perm ((n.owners x).settled ++ (m.message_chan ++ m.sends)) (n.owners x).told) e
          (faithful_whereabouts (n.owners m.id) m h
            (subst (λ x. IsFaithful (n.owners x)) (sym e) f)),
    )

Owns-cases : (u : String) (own : List String) → Owns u own ⊎ (Owns u own → ⊥)
Owns-cases u [] = inr (λ i. i)
Owns-cases u (x ∷ xs) = elim (string_discrete x u) [
  | yes e ↦ inl (inl e)
  | no n ↦ elim (Owns-cases u xs) [
    | inl i ↦ inl (inr i)
    | inr k ↦ inr (λ i. elim i [ inl e ↦ n e | inr j ↦ k j ])
  ]
]

-- What a pod makes of a message.
abbrev pub Hears : Owner → Message → Type 0
Hears o msg =
    (f : Message → FuncResult) × (o.pod.on_func ≡ some (handle_by f))
    × ((Owns msg.uuid o.own × (receive o.pod msg ≡ o.pod))
        ⊎ ((Owns msg.uuid o.own → ⊥) × (receive o.pod msg ≡ report msg (is_ok (f msg)) o.pod)))

receive-Listens : (o : Owner) (msg : Message) → Listens o.pod o.own → Hears o msg
unfolding report
receive-Listens o msg l =
    let e = receive-handle o.pod l.func msg l.set in
    (
      l.func,
      l.set,
      elim (Owns-cases msg.uuid o.own) [
        | inl i ↦ inl (i, ground (arith, e, l.blocked msg i))
        | inr k ↦ inr (
          k,
          elim (Bool-cases (is_ok (l.func msg))) [
            | inl y ↦ ground (arith, e, l.admits msg k, y)
            | inr y ↦ ground (arith, e, l.admits msg k, y)
          ],
        )
      ],
    )

-- In every such node, when the pod of any connection of the ring takes a message, either it has
-- sent a message with that UUID itself, and then it stays as it is, or it has not, and then it
-- reports what its function returns for the message.
pub heard_by_others :
    {n : Node} (msg : Message)
    → Reachable n
    → (ring : List Member) × Represents n.bus.pool ring × All (λ m. Hears (n.owners m.id) msg) ring
heard_by_others {n} msg r =
    let s = Reachable-IsSound r in
    (
      s.ring,
      s.represents,
      All-map _ _ s.ring
          (λ (m : Member) (h : Fair (n.owners m.id) m).
            receive-Listens (n.owners m.id) msg h.listens)
          s.fair,
    )
