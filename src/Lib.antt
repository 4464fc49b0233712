-- ===== src/Lib.antt =====
-- tcpframe: an epoll reactor for TCP servers, with a heap of timeouts, connections that collect
-- packets, and a small binary protocol.
--
-- The dispatch loop (src/reactor.c) waits in epoll_wait until the first deadline of the heap
-- (src/min_heap.c, include/min_heap.h), calls the callback of each descriptor that is ready
-- (src/socket_util.c), and then those of the timers that are due. A callback reads or writes through
-- src/socket_api.c into the buffers of its connection, hands a whole packet to src/bin_proto.c, and
-- moves the connection's timer.
--
-- The files:
-- - Prelude: the ways a call ends (Run), tests on numbers, memory as a function of an index, bytes.
-- - Time: the macros on struct timeval of include/min_heap.h; Time/Laws their meaning.
-- - MinHeap: src/min_heap.c, one function per C function (`push` is MinHeapPush, `erase` is
--   MinheapErase, ...); Order, Hole, Up, Down, Insert, Remove and Erase the proofs; Session the
--   queue of timers that its callers see, and Queue the proofs about it.
-- - Os: the system calls, as a record of functions over a state of the world, with the documented
--   behaviour in OsLaws. Nothing of the operating system is defined here.
-- - Reactor: the table of descriptors of src/reactor.c, EventBaseCreate, EventAdd and EventDel; Blocks
--   the memory of a base, and Balance what is kept and freed of it.
-- - Timers: RegisterTimerOutEvent, UnregisterTimerOutEvent and the timeout of epoll_wait.
-- - SocketIo: PynServerRecvData and PynServerSendData of src/socket_api.c.
-- - Packet: the packets of include/bin_proto.h and src/bin_proto.c.
-- - Conn: a connection's buffers, ResizeRecvBufferPtr and ResizeSendBufferPtr.
-- - Server: the callbacks of src/socket_util.c and the handlers of src/bin_proto.c, on the state of
--   a process: the base of the reactor, and the connections by their pointers. Collect, Header and
--   Arrive follow the bytes that one call of ProcessRecvCallback takes, Sending and Wakes those that
--   ProcessSendCallback hands over, Watch and Echo the answer to an echo packet, and Stream a packet
--   from the stream that comes in to the one that goes out.
-- - Dispatch: ReactorProcessTimeoutEvent and ReactorEventDispatchLoop.
-- - SocketSetup: the options of a socket and PynServerCreateTcpServer of src/socket_api.c, which main()
--   calls before it forks; Descriptors what it leaves open.
-- - Log: src/server_log.c over a file system that is a parameter; Rotation and Message the proofs.
-- - Master: the arguments and the master's loop of main.c; Supervision its relation to a supervisor.
--   Master/Daemon is InitDaemonProcess, over the calls of a Unix system, and Limits what it leaves.
-- - Program: main() of main.c, which runs all of the server's parts; Results how it ends.
-- - Client: the benchmark client of client/http, which has an array of connections of its own: Types the
--   state, Config the options, Events how a connection is opened, closed and reused, Callbacks what
--   it sends and receives, Loop the rounds, Main the program. Places and Ready are the invariant of
--   the array; Open, Local, Touch and Reuse carry it through the operations, Serve, Stamp, Finish and
--   Answer through the callbacks, Batch and Rounds through a round of the loop, Ending to its end.
-- - Tests: the theorems at concrete inputs, on a small operating system.
--
-- A pointer is a number, with 0 for NULL; free takes a connection out of the table of connections,
-- so that a later access is a fault. The free of a connection's timer node in __DestroyConn is not
-- modelled: the node stays readable, though it has left the heap by then. An access outside a block is a fault, exit() is `exits`. The
-- loops of the heap run on fuel: one round per level is needed, and the number of the slots is given.
-- The loops of the reads and writes have one round for each byte and for each signal (a call of
-- ProcessRecvCallback asks for at most 4096 bytes behind the header), and the loop
-- over the timers one more than there are timers. The loops of the benchmark client's callbacks have
-- one round for each signal, and that which opens clients one for each place.
--
-- The timeout of epoll_wait is converted to an int of 32 bits, and a buffer's size that doubles past
-- the largest int is a fault, since the behaviour is undefined. The other numbers of the server are
-- unbounded: they are counts of what a process holds, or lengths that a header is refused for
-- beyond 1 MB; a length field of 2 ^ 31 or more, which is negative as an int, is refused as the code
-- refuses it.
--
-- The counts of the benchmark client, which are unsigned in the code, wrap at 2 ^ 32 in the model.
--
-- Not modelled: the handlers of SIGTERM in main.c, name resolution, what the benchmark client prints,
-- and its signals; MinheapDestory, __DestoryPack and FreeResource, which free the blocks of one struct;
-- and the functions with an empty body.
pub mod Prelude
pub mod Time
pub mod MinHeap
pub mod Os
pub mod Reactor
pub mod SocketIo
pub mod SocketSetup
pub mod Packet
pub mod Timers
pub mod Conn
pub mod Server
pub mod Dispatch
pub mod Log
pub mod Master
pub mod Program
pub mod Client
pub mod Tests
