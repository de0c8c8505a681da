-- ===== src/Lib.antt =====
-- Grav, an embedded messaging library: a verification library of its bus, its pods and its mesh.
--
-- A node runs one message bus. Each pod is connected to it by a podConnection in a ring; a pod sends a
-- message to the bus, and the bus passes it to every connection of the ring, keeps the last messages in
-- a buffer, and replays them to a pod that asks. A pod reports successes, failures, and the wishes for a
-- replay or an end over its feedback channel, which the bus reads before it moves on to the connection.
-- The hub of a node is a pod as well: it sends the messages of the bus to the mesh connections, and it
-- tunnels a message to one peer that has named a capability, by a round-robin balancer per capability.
--
-- Files, and the code that each of them models (paths from the root of the repository):
--   Message             grav/message.go: messages and their constructors
--   Filter              grav/filter.go: messageFilter; Filter/Allow: what it lets through
--   MsgBuffer           grav/msgbuffer.go: Push, Next, Iter; Valid: well-formed buffers; Recent: a bounded
--                       queue as their abstract view; Replay, Loops, Range, Evict: what Iter and Next
--                       visit, the range of the indices, and a UUID that comes again
--   PodConnection       grav/podconnection.go: send, checkStatus, disconnect, flushFailed; Status;
--                       Delivery: the goroutines of send, and the pod that reads
--   Pool                grav/pool.go: insert, peek, next, prepareNext, replayNext, deleteNext on a
--                       heap of connections; Change: a write to one of them; Ring: the ring as a
--                       list of members; Refines, Prepare: the operations on that list; Lost:
--                       requests that are dropped; Feed: what a pod puts into its feedback
--                       channel; Race: a pod that connects during prepareNext
--   Bus                 grav/bus.go: traverse, and the loop of start; Lap, Traverse, Handle: a lap of the
--                       ring; Members, Deliver, Everyone: who gets a message; Fuel: the fuel
--                       of the loops; Race: a pod that connects during a round; Circle: the ring
--                       with its turn forgotten
--   Busy                grav/bus.go: the same loops while pods report and connect; Story, Admit, Round,
--                       Loops, Everyone: who gets a message then; Schedule: quiet and longer
--                       schedules; Reach: every bus that an instance comes to
--   Node                grav/bus.go, grav/pod.go, grav/podconnection.go: the bus with its pods and their
--                       goroutines; Fair, Moves: one pod and its connection; Steps, Runs, Broadcast
--   Balancer            grav/tunnel/balancer.go: Add, Remove, Next; Valid, RoundRobin
--   Transport           grav/transport.go: handshakes, and what the hub asks of a connection
--   ConnectionHandler   grav/connectionhandler.go, grav/withdraw/signaler.go: Send, and the goroutines
--                       that read and that send the withdraw
--   Hub                 grav/hub.go: the table, the balancers, handshakes; Traffic: broadcasts,
--                       tunnels, scans, withdraw, stop; Calls: the calls of Send that wait or not;
--                       Table: table and balancers in step; Reach: what a hub goes through;
--                       Consistent: table and balancers over all of that, with handshakes that
--                       meet; Handshake, Accept: handshakes; Keys, Scan, Keyed: keys and scans;
--                       Tunnel, Rounds, Retry, Deliver: tunnels; Spread: messages to the mesh;
--                       Stuck: the lock and ErrChan; Counting: the count of withdraw
--   Pod                 grav/pod.go, grav/receipt.go: Send, On, OnType, Disconnect; Wait: WaitUntil, receipts;
--                       Replies, Once: replies, echoes, the replay; Waiting: the locks of a wait;
--                       Life, Leaving: all messages of a pod, to the end of its channel
--   Options             grav/options.go: the options and their modifiers; Last: what was said last
--   Instance            grav/grav.go: New, Connect, and the methods that call the hub; Steps: what an
--                       instance goes through; Ring, HubPod, Running, Total: its bus over all of that;
--                       Relay: a message from a peer; Startup, Leave: what initHub
--                       starts, and what withdraw stops
--   Timeout             grav/timeout.go: time limits in 64-bit arithmetic; Range
--   AsyncCounter        testutil/asynccoutner.go: the counter of the tests; Wait
--   Websocket           transport/websocket/transport.go: frames, handshakes, withdraws, endpoints;
--                       Frames, Peers: the two ends of one websocket; Withdraw: a node that leaves
--   Bridge, Nats, Kafka transport/nats/transport.go, transport/kafka/transport.go: the function that a
--                       bridge gives to its pod, and the loop that reads the topic; Bridge/Traffic, Relay,
--                       Nats/Run, Nats/Relay, Kafka/Run: what goes over a bridge
--   Discovery           discovery/local/discovery.go: what a node advertises; Endpoint: where it is found
--   Common              conditionals, lists over native numbers, cyclic indices, UUIDs, maps
--   Tests               runs at fixed inputs, and the theorems applied at concrete inputs
--
-- State is passed explicitly; a method under a lock is one step. The result `none` is a run-time
-- panic (a nil pointer, an index out of range, a channel closed twice) or the end of the fuel;
-- prepare_rounds of Bus tells the two apart. A pointer is an address of the heap of the pool, a
-- connection of a plugin is a number, and a map is an association list. Numbers do not wrap, except
-- in Timeout and in the time limit of AsyncCounter: the counters of the code are far from 2^63.
--
-- Fuel: a lap of the ring and the loop before it need one unit for each connection of the ring, and the
-- theorem on the handling of a message asks for the length of the ring; the schedules of Busy are fuel
-- as well, and need a round more for each pod that connects; Iter has the length of the
-- order as its fuel, which suffices, and a tunnel has the 32 rounds of the code.
--
-- In Bus a channel holds what it held when the message was taken; in Busy pods report and connect
-- before each round of the loops. The calls of one round make one step there, since feedback that
-- comes in during a round changes nothing but what the next status check of its connection reads; a
-- pod that connects between two calls of one round is another matter, and Pool/Race and Bus/Race
-- have it for prepareNext and for traverse. In the ring the goroutines that send starts are kept as
-- pending sends; their runs are in PodConnection/Delivery for one connection, and in Node for all
-- the pods of a bus. In Node the handling of a message is one step, and no pod asks for a replay.
--
-- The hub: ErrChan has no room, so a call of Send whose SendMsg fails waits there until the scan
-- takes the error. messageHandler and sendTunneledMessage are functions up to their return or to
-- such a wait, which their results tell apart; they go on after it from whatever state the hub has
-- come to, and Hub/Reach has each such stretch as a step. That messageHandler keeps its read lock
-- over a wait, which shuts the scan out, is not in those steps: they allow more than the program
-- does, and Hub/Stuck has the lock and the waits, for one connection. setupNewConnection locks
-- twice; Hub/Reach has the runs in which another addition comes between, at `false`, and those
-- without, at `true`.
--
-- JSON, UUIDs, the clock, the websockets, the clients of NATS and Kafka and the multicast of the
-- discovery are arguments, and so is what their calls return.
--
-- Not modelled: logging, and the programs under tester/ and docs/.
pub mod Common
pub mod Message
pub mod Filter
pub mod Balancer
pub mod MsgBuffer
pub mod PodConnection
pub mod Pool
pub mod Bus
pub mod Transport
pub mod ConnectionHandler
pub mod Hub
pub mod Pod
pub mod Options
pub mod Instance
pub mod Websocket
pub mod Bridge
pub mod Nats
pub mod Kafka
pub mod Timeout
pub mod Discovery
pub mod Busy
pub mod Node
pub mod AsyncCounter
pub mod Tests
