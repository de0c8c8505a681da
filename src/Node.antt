-- ===== src/Node.antt =====
-- The bus with its pods and what goes on between them (grav/bus.go, grav/pod.go,
-- grav/podconnection.go): pods connect and send, the bus takes the messages of busChan one after
-- another, and the goroutines of send and of the pods run in any order. A pod may fail
-- on a message, and it may disconnect, but for the first, the hub's. Beside the state, what each pod has
-- taken without failing and sent, and what the bus has sent to it since it connected, are kept.
pub mod Fair
pub mod Moves
pub mod Steps
pub mod Runs
pub mod Broadcast
use grav.Common.{
  ℕ, ◌+◌, ◌<◌, ◌≡◌, ◌≢◌, String, false, List, [], ◌∷◌, ◌++◌, Option, none, some, ite, ℕ_discrete,
  length, All,
}
use grav.Message.{Message}
use grav.PodConnection.{Ptr, PodConnection, run_send}
use grav.PodConnection.Delivery.{default_pod_chan_size}
use grav.PodConnection.Status.{failures}
use grav.Pool.{ConnectionPool, store}
use grav.Bus.{MessageBus, new_message_bus, add_pod, handle}
use grav.Pod.{Pod, FuncResult, ok, new_pod, on, send, receive, disconnect}

-- A pod, with the messages that it took and did not fail on, those that the bus sent to it, and the
-- UUIDs of its own.
pub record Owner : Type 0 where
  pub pod : Pod
  pub settled : List (Option Message)
  pub told : List (Option Message)
  pub own : List String

-- `queue`: what waits in busChan. `ids`: the IDs of the connections.
pub record Node : Type 0 where
  pub bus : MessageBus
  pub queue : List Message
  pub owners : ℕ → Owner
  pub ids : List ℕ

abbrev pub set_owner : (ℕ → Owner) → ℕ → Owner → ℕ → Owner
set_owner os a o x = ite (ℕ_discrete x a) o (os x)

-- `Connect`, and `On` before the first message comes.
unfoldable pub newcomer : (Message → FuncResult) → Owner
unfolding on new_pod
newcomer f = record { pod = on (new_pod false) (some f); settled = []; told = []; own = [] }

-- The pod without what it has put into busChan and feedbackChan.
unfoldable pub emptied : Pod → Pod
emptied p = record p { bus_chan = []; feedback_chan = [] }

-- `Send`. A pod that has disconnected gives no receipt.
unfoldable pub post : Owner → Message → List Message × Owner
unfolding send emptied
post o msg =
    let (receipt, p) = send o.pod msg in
    (
      p.bus_chan,
      record o { pod = emptied p; own = elim receipt [ none ↦ o.own | some uuid ↦ uuid ∷ o.own ] },
    )

-- The bus has handled a message.
unfoldable pub tell : Owner → Message → Owner
tell o msg = record o { told = o.told ++ (some msg ∷ []) }

-- The goroutine of a message of messageChan.
unfoldable pub take : Owner → Message → Owner
unfolding receive emptied
take o msg =
    let p = receive o.pod msg in
    record o {
      pod = emptied p;
      settled = elim (failures p.feedback_chan) [
        | [] ↦ o.settled ++ (some msg ∷ [])
        | _ ∷ _ ↦ o.settled
      ];
    }

-- `Disconnect`, and the connection of the pod.
unfoldable pub leave : Owner → Owner
unfolding disconnect emptied
leave o = record o { pod = emptied (disconnect o.pod) }

unfoldable pub left_from : PodConnection → Owner → PodConnection
unfolding disconnect
left_from c o = record c { feedback_chan = c.feedback_chan ++ (disconnect o.pod).feedback_chan }

-- The connection of the pod that takes a message, `rest` being what its channel holds behind it.
unfoldable pub taken_from : PodConnection → Owner → Message → List (Option Message) → PodConnection
unfolding receive
taken_from c o msg rest = record c {
  message_chan = rest;
  feedback_chan = c.feedback_chan ++ (receive o.pod msg).feedback_chan;
}

pub data NodeStep (n : Node) : Node → Type 0 where
  connected :
      (f : Message → FuncResult) (bus : MessageBus)
      → add_pod n.bus [] ≡ some bus
      → NodeStep n (record n {
        bus = bus;
        owners = set_owner n.owners (n.bus.pool.max_id + 1) (newcomer f);
        ids = (n.bus.pool.max_id + 1) ∷ n.ids;
      })
  posted :
      (a : ℕ) (msg : Message)
      → NodeStep n (record n {
        queue = n.queue ++ (post (n.owners a) msg).0;
        owners = set_owner n.owners a (post (n.owners a) msg).1;
      })
  handled :
      (fuel : ℕ) (msg : Message) (rest : List Message) (bus : MessageBus)
      → n.queue ≡ msg ∷ rest
      → handle fuel n.bus msg ≡ some bus
      → NodeStep n (record n { bus = bus; queue = rest; owners = λ a. tell (n.owners a) msg })
  ran :
      (a : Ptr) (c c' : PodConnection) (xs ys : List (Option Message)) (msg : Option Message)
      → n.bus.pool.heap a ≡ some c
      → c.sends ≡ xs ++ (msg ∷ ys)
      → length c.message_chan < default_pod_chan_size
      → run_send msg (record c { sends = xs ++ ys }) ≡ some c'
      → NodeStep n (record n { bus = record n.bus { pool = store n.bus.pool a c' } })
  took :
      (a : Ptr) (c : PodConnection) (msg : Message) (rest : List (Option Message))
      → n.bus.pool.heap a ≡ some c
      → c.message_chan ≡ some msg ∷ rest
      → NodeStep n (record n {
        bus = record n.bus { pool = store n.bus.pool a (taken_from c (n.owners a) msg rest) };
        owners = set_owner n.owners a (take (n.owners a) msg);
      })
  left :
      (a : Ptr) (c : PodConnection)
      → a ≢ 1
      → n.bus.pool.heap a ≡ some c
      → NodeStep n (record n {
        bus = record n.bus { pool = store n.bus.pool a (left_from c (n.owners a)) };
        owners = set_owner n.owners a (leave (n.owners a));
      })

-- A node whose first pod, which is the hub's, has connected, and all that comes after.
pub data Reachable : Node → Type 0 where
  started :
      (f : Message → FuncResult) (bus : MessageBus)
      → ((msg : Message) → f msg ≡ ok)
      → add_pod new_message_bus [] ≡ some bus
      → Reachable (record { bus = bus; queue = []; owners = λ a. newcomer f; ids = 1 ∷ [] })
  stepped : {n n' : Node} → Reachable n → NodeStep n n' → Reachable n'
