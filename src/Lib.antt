-- ===== src/Lib.antt =====
-- AOSproject: distributed mutual exclusion on a set of hosts, and the test bed that runs it.
--
-- The program's parts, and how they interact:
-- - `testbed.cpp` reads a configuration, assigns a quorum to every node, writes a quorum file and a
--   schedule for each host, has the listening server of each host (`listenserver/lserver.cpp`) start its
--   node or its switch, once for each of two algorithms, and afterwards reads the logs.
-- - A node (`node/`) reads its two files, and then makes one round per millisecond: it empties the
--   queue of messages that its network thread fills, counts down its time in the critical section, and
--   requests the section when its schedule says so. There are two algorithms, Maekawa's
--   (`node/MAKNode.cpp`) and one that passes a token (`node/LAKNode.cpp`), over a common base class.
-- - A node sends frames of 1024 bytes to the switch of its group of hosts (`vswitch.cpp`), which logs
--   each and forwards it to the host that its first byte names. The frames go through `socket/`, which
--   has a queue and two threads per connection; `dumpswitch/` stands in for all switches.
--
-- Which file models which part:
-- - `Node` (`State`, `MessageType`, `Config`, `Start`): node/Node.h and node/Node.cpp, the state that both
--   algorithms share, the files that `Node::init` reads, and the phases of `Node::start`, from the
--   connection of its network on. There
--   `Program` is what the base class leaves to `run`; `Lak.Program` fills it with the token node.
-- - `Maekawa` (`Message`, `State`, `Handlers`, `Loop`): node/MAKNode.h and node/MAKNode.cpp, a
--   definition per method, under the method's name in snake_case (`receive_request` is
--   `MAKNode::receive_request`, `finish_cs` is `finishCS`, `tick` is one round of `run`). `Step` is the
--   node between its two threads: a message arrives, a message is handled, a round is made.
--   `Maekawa.System` puts several such nodes on a network, as `Lak.System` does; `IsOrderly` there says
--   which messages a run handles and when requests fall due in it, `RunIsOrderly` that it holds throughout.
-- - `Lak` (`Message`, `State`, `Handlers`, `Loop`): node/LAKNode.h and node/LAKNode.cpp, in the same way.
--   `Lak.System` puts several such nodes on a network: `SystemStep` delivers a packet, loses one, or lets
--   a node handle a message or make a round. `Family` has the sums over the nodes.
-- - `Quorum` (`Grid`, `Assignment`, `Write`): `QuorumAssignment` and `write_quorums` of testbed.cpp.
-- - `Schedule` (`Read`, `Write`): `read_config` and `write_config` of testbed.cpp. `ConfigText` is the
--   form of config.txt, as the comments in it document it.
-- - `Contact`: `contact_servers` of testbed.cpp. `TestBed`: its `main`, which
--   takes what comes to its socket as an argument, and `forward`, `term_listen` and `term_wait` (`Calls`).
-- - `ListenServer`: listenserver/lserver.cpp, and the choice of the algorithm in node/main.cpp.
-- - `Results`: `get_conflict`, `get_runtime` and `get_wait` of testbed.cpp, and `get_results` (`Log`).
-- - `Network` (`Frame`, `Accept`, `Connect`, `Lifetime`, `Listen`): node/NodeNetwork.cpp, the frames, what is
--   done with one, `onConnect`, the methods from the constructor to `close_me`, and the accepting thread.
-- - `Old` (`ServerSocket`, `ListenServer`): socket_old/ServerSocket.cpp, and the loop and the threads of
--   listenserver_old/ListenServer.cpp, which no other part uses.
-- - `Socket`: socket/Socket.cpp, a definition per method and one per round of each thread. `Socket.Link`
--   puts two sockets at the ends of a connection, and `Socket.Fifo` is what they promise together.
-- - `Threads`: thread/Thread.cpp and thread/MutexLock.cpp. The parts above have their threads and locks in
--   their own states.
-- - `DumpSwitch`: `onReceive` and `onDisconnect` of dumpswitch/DumpSwitch.cpp.
-- - `Switch` (`Session`, `Main`): `forward` and `handle` of vswitch.cpp, and its `main`.
-- - `Text` is the C++ library's part in these: decimal numbers, `atoi`, `strtol`, `find_first_of`,
--   `substr`, and streams with `getline` and `>>`.
--   `OrderedSet` is `std::set` by its comparison, `Distinct` counts lists without repetition, and
--   `Prelude` holds what all share. The other modules below a part are its proofs; the modules named
--   `Examples` run the definitions and the theorems on concrete values.
--
-- How the code is modelled:
-- - An `int` of the nodes is an integer without bound; an `unsigned` conversion, the 64-bit sums of the
--   results and the times of the schedule wrap around as written. A count of nodes is not negative.
-- - A `std::set` is an ascending list, a `std::map` an association list, a file a function from names
--   to contents, and what is sent or printed to a log is a list in the state.
-- - `none` is behaviour that C++ leaves undefined (the first element of an empty set, an index out of
--   an array, a read or a write behind its end, a read behind the end of a string, a value that was never set), a wait for a lock that is
--   never given back or for a connection that does not come, or a loop that did not end within its fuel. The reading of a TOKEN and `contact_servers`
--   take fuel as an argument: for a TOKEN one more than its requests is enough when the loop ends at
--   all, and `contact_servers` ends within twice as many rounds as there are nodes. The search for the
--   side of the grid has as many rounds as nodes, which is enough, and a number is printed with more
--   fuel than it has digits. `read_config` takes fuel, of which one more than the file has lines is
--   enough for a file of the documented form; a list of requests without its end never ends. A log is
--   read with two rounds more than it has bytes, and each round takes a line.
-- - Members of a message that the code leaves unset are an argument (`raw`) of the definitions that read
--   one. The `to` of Maekawa's message, which its text does not carry, is left out. Requests in the
--   list of a TOKEN have no list of their own, as the code builds them so.
-- - What `recv`, `rand` and the calls of `forward` return is given with each message to the switch. A
--   forward whose name and zero do not fit `to_addr` is `none`, as all writes behind an array are.
-- - What lies in memory behind a message that `NodeNetwork::send` copies is an argument (`behind`).
-- - What the system calls of a socket return is given to each operation. `disconnect` takes what its
--   threads do before it has joined them as an argument. A connection is a list of bytes.
-- - The connections to a listening server are taken one after the other, although each has a process
--   of its own; what the shell runs is a list of commands.
--
-- Not modelled: system calls and the wrappers of them (the shell commands of testbed.cpp, the accepting
-- loop of dumpswitch/), which only open, wait for and close what the system provides;
-- `getHostDNS` and `getBoundedIp` of the socket, which copy a name; the earlier Socket of socket_old/, which is superseded; prints to the console, and sleeps other than those between the phases of a run.
pub mod Prelude
pub mod Text
pub mod OrderedSet
pub mod Distinct
pub mod Family
pub mod Node
pub mod Maekawa
pub mod Lak
pub mod Quorum
pub mod Network
pub mod Threads
pub mod Old
pub mod Switch
pub mod Schedule
pub mod Contact
pub mod Socket
pub mod DumpSwitch
pub mod ListenServer
pub mod TestBed
pub mod Results
pub mod Examples
