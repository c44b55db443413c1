-- ===== src/Lib.antt =====
-- A model of hyperswarm-rs: a swarm joins topics, finds the peers of a topic over a distributed hash table
-- (the DHT) and multicast DNS, connects to them over TCP and uTP, and hands out the connections, those
-- that it opened and those that came in.
--
-- How the parts interact. A program configures topics, on the swarm or through a handle whose commands the
-- swarm receives from a channel. A poll of the swarm (`Hyperswarm::poll_next`) receives the commands, which
-- ask the discovery to announce or to look up; polls the discovery once, and has the transport connect to a
-- peer that it gives; and polls the transport, whose connection it hands out. The combined discovery passes
-- what it is asked to both discoveries and polls the table's first. The combined transport connects over
-- both protocols and lets through one of the connections that it opens to a peer.
--
-- The files and the code (paths from the repository's root):
--   Net, Channel      what the code uses of std::net and of async_std::channel
--   Util              src/util.rs
--   Config            src/config.rs; Config/Builders: chains of its methods
--   Bootstrap         src/bootstrap.rs; Runs: when a node runs
--   Discovery         src/discovery/mod.rs: the trait `Discovery` is a record of operations on a state,
--                     `PeerInfo` a record; Discovery/Calls: sequences of calls and what they give;
--                     Discovery/Recording: a discovery with a record of what it is asked and gives;
--                     Discovery/Drives: runs that one discovery drives; Discovery/Total: what they cost
--   Discovery/Dht     src/discovery/dht.rs; Logged: the record of what a table is asked and gives,
--                     Rule: an induction rule for `poll_next`, Events and Accounts: the books, Polls: the
--                     results, Termination: the fuel
--   Discovery/MdnsConfig, Discovery/Mdns
--                     src/discovery/mdns.rs; Locates: what comes of a run
--   Discovery/Combined
--                     src/discovery/combined.rs; Weave: how a run is woven of those of the parts
--   Transport         src/transport/mod.rs: the trait `Transport` and `Connection`; Transport/Calls,
--                     Transport/Recording and Transport/Total as for the discovery
--   Transport/Sources, Transport/Tcp, Transport/Utp
--                     src/transport/tcp.rs and src/transport/utp.rs, Sources the body of their polls;
--                     Transport/Opens: how many connections they open
--   Transport/Combined
--                     src/transport/combined.rs; Dedup: the set `connected`, Ledger, Passes and
--                     Lossless: what becomes of the results of the parts, Silence: polls without a result
--   Transport/Stream  the AsyncRead and AsyncWrite instances of src/transport, and `protocol` and
--                     `peer_addr` of a stream; Transparent: reading and writing; Labels and Agreement:
--                     what a connection says of its stream
--   Swarm             src/swarm.rs; Topics: the map of topics, Configure and Commands: what comes of the
--                     commands, Books, Quiet and Balance: what comes of the polls, Stalls: what a poll
--                     leaves behind, Calls: sequences of calls, Drives and Total: what the discovery does,
--                     Order: commands in another order, Due and Handles: commands between polls
--   System            the swarm over the two discoveries and the two transports; Sources: where the
--                     addresses come from, Returns: when a poll returns, Binds: what binding comes to
--   Hyperchat         the framing of examples/hyperchat.rs; Framing: messages sent and received
--   Hyperchat/Connection
--                     connection_loop of examples/hyperchat.rs, from one await to the next; Laws: the stream,
--                     Frames and Sends: what is written, Pieces, Books, Reading and Receives: what is
--                     read, Delivers: both ends, Progress: turns without input
--   Hyperchat/Broadcast
--                     HyperBroadcast of examples/hyperchat.rs; Peers: the senders, Tasks and Tells: what the
--                     connections are told
--   Hyperchat/Main    main of examples/hyperchat.rs; Joins: the topics, Names: what is printed
--   Programs/Node     hyperswarm-bootstrap/src/main.rs; Starts: its configuration
--   Programs/Simple   examples/simple.rs; Talks: what a connection prints, Nodes: what a
--                     node asks of its discovery
--   Tests             runs of the model on concrete inputs
--   Prelude           polls, results and outcomes, and the lemmas that the parts share
--
-- State and effects. A method on `&mut self` is a function that gives the new state. What may panic gives
-- an `Outcome`: it returns, panics or is out of fuel. A `Poll<Option<io::Result<A>>>` is a `Next A`. The
-- waker is not in the state: a poll that is ready is one that may be polled again, and what a part has at
-- hand is part of its state. A `HashMap` and a `HashSet` are lists without repetitions, a `VecDeque` is a
-- list, and what is only logged is left out.
--
-- What is a parameter. The crates that the code uses are records of operations: `HyperDht` (the table),
-- `Mdns` (locator, announcer and sockets), `Tcp` and `Utp` (the sockets), `FuturesUnordered`, `Channel`,
-- `DhtSettings`, `DhtNode`, `ByteStream`, `AsyncStream`, `TextStream` and `Blake2b`. What is relied on of
-- them is stated as records of laws: `IsFifo` of an open channel, `IsDraining` of the table, `IsCollection`
-- of a collection of futures, `IsPipe` and `IsStream` of a stream of bytes, `IsQuiet` of one without input,
-- `IsOpen` of one until it is closed, `IsHash` of the hasher.
--
-- Fuel. Three loops of the code have no bound of their own. That over the commands is given a number of
-- rounds, and one more than the commands in the channel are enough. That of the table's `poll_next` is
-- given a number of rounds, and one more than the events that the table has at hand, and may get from the
-- queued commands, are enough. That of the reader in examples/simple.rs is given one round more than the
-- bytes that come. How often the task of run_node in that file polls its swarm, before the topic is
-- configured and after, is an argument.
--
-- What is not modelled: Debug and Display instances, the command lines, environment variables, logging and
-- terminals of the programs, the loop of examples/simple.rs over its nodes, the end of the channel of a
-- removed chat peer, js/, and the builds without the feature `transport_utp`.
pub mod Prelude
pub mod Programs
pub mod Net
pub mod Channel
pub mod Discovery
pub mod Util
pub mod Transport
pub mod Config
pub mod Bootstrap
pub mod Swarm
pub mod System
pub mod Hyperchat
mod Tests
