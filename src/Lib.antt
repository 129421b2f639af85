-- ===== src/Lib.antt =====
-- base.Linux, a C++ network library for Linux: event loops over epoll, timers, buffers, TCP and UDP.
--
-- The parts and how they interact. An `EventLoop` (src/event_loop.cc) runs on one thread. In each
-- turn it asks its `Poller` (src/poller.cc, src/epoller.cc) for the channels with events and
-- calls each `Channel` (src/channel.cc), whose callbacks belong to the timers, connectors,
-- acceptors and connections of the loop. The `TimerQueue` (src/timer_queue.cc) is one of them:
-- its channel's descriptor is a timer descriptor, set for the timer that expires first. A
-- connection reads into a `Buffer` and sends from one (src/buffer.h).
--
-- What is modelled, file by file.
--   Acceptor: src/acceptor.h and src/acceptor.cc, with Acceptor/Descriptors on what becomes of
--     each one.
--   Base: the names that all modules share, with lists over native numbers, bytes in storage,
--     `size_t` arithmetic (`% 2 ^ 64`), and runs that may fault.
--   Buffer: src/buffer.h and src/buffer.cc. The record has the members `buffer_`, `read_index_`
--     and `write_index_`; the functions have the methods' names in small letters (`read_fd` is
--     `ReadFd`). Buffer/Space has the invariant and `MakeSpace`, Buffer/Contents what the
--     readable bytes become, Buffer/Search the search for a line's end, Buffer/Reading `ReadFd`,
--     Buffer/Integers the numbers in network order, Buffer/Overlap the copy within the storage.
--   Channel, Epoller: src/channel.h, src/poller.h, src/poller.cc, src/epoller.cc. The record
--     `Epoller` has the members of `Poller` and `Epoller`, the memory of the channels (`objects`)
--     and the state of the kernel's epoll instance. Epoller/Table has the invariant,
--     Epoller/Counting how channels are counted, Epoller/Settling and Epoller/Updating
--     `UpdateChannel`, Epoller/Removing `RemoveChannel`, Epoller/Polling `Poll`, Epoller/Dumping
--     the debug check `DumpChannels`, Epoller/Handling the flag `handling_`; Epoller/Kernel is an
--     epoll to run the poller on, Epoller/Starting is about a new poller and the destructor.
--   Connector: src/connector.h and src/connector.cc. The record has the members of `Connector`,
--     with `channel_` as its descriptor, the calls of `ResetChannel` that are queued, and what
--     became of the descriptors. Connector/Steps has the invariant and what each call and event
--     does to it, Connector/Restarting two ways to break the connector.
--   EventLoop: the tasks and wake-ups of src/event_loop.h and src/event_loop.cc, as a relation of
--     steps that the loop's thread and others take; EventLoop/Pending has its invariant.
--     EventLoop/Signals has the masks of signals and `HandleSignal`, Signalling what becomes of a
--     signal; EventLoop/Threads has the loops of the threads and the calls for the loop's thread
--     only, Belonging the invariant of these, and EventLoop/Timers `TimerAt` and its like.
--   EventLoopThread: src/event_loop_thread.h and src/event_loop_thread.cc, with `Loop` and `Quit`
--     of the event loop, as a relation of steps of the loop's thread and its owner;
--     EventLoopThread/Quitting is about a stop that reaches the loop, and what `Quit` may meet
--     then, Lost about one that does not.
--   EventLoopThreadPool: src/event_loop_thread_pool.h and src/event_loop_thread_pool.cc, with
--     EventLoopThreadPool/RoundRobin on the turn that the loops take.
--   InetAddress: src/inet_address.h and src/inet_address.cc. The record has the bytes of the
--     `sockaddr_storage`; of_port, of_storage, sockaddr_in, sockaddr_in6 and of_ip are the
--     constructors. InetAddress/Reading is about what is read back from an address,
--     InetAddress/Comparing about `operator==`.
--   OrderedSet: `std::set` of pairs, as a sorted list without repetitions.
--   Socket: src/socket.h and src/socket.cc. The record has `fd_` and the options that were set.
--     Socket/KeepAlive is about `SetKeepAlive`, Owning about the move constructor and the
--     destructor, Addresses about `IsSelfConnect`, TcpInfoText about the text of
--     `GetTCPInfoString`.
--   TcpClient: src/tcp_client.h and src/tcp_client.cc, with the connector of TcpConnector;
--     TcpClient/Reconnecting is about the end of a connection.
--   TcpConnection: src/tcp_connection.h and src/tcp_connection.cc. The record has the members of
--     `TCPConnection`, with the state of its channel and socket; `step` is a method or an event
--     of the channel on the loop's thread, and `handle_channel` what the channel's `HandleEvent`
--     calls. TcpConnection/Stream is what a connection promises, Valid its invariant, Output,
--     Draining and Input the methods one by one, Running and Order any sequence of events, Losses
--     a flaw.
--   TcpConnector: src/tcp_connector.h and src/tcp_connector.cc. The record has the members of
--     `TCPConnector`, the timers and queued calls that its loop has for it, and the descriptors
--     that are open. TcpConnector/Valid has the invariant, Steps and Stopping each call and
--     event, Running any sequence of them, Waiting the time between attempts that fail,
--     Restarting what a restart leaves, Forgetting and Leaking a descriptor that nobody closes.
--   TcpServer: src/tcp_server.h and src/tcp_server.cc. The record has the list of connections,
--     their number, the next name, the pool of loops, and the tasks given to the loops.
--     TcpServer/Table and Entries are about the list, Serving about what the server promises,
--     Limits about a descriptor that is too high; Lives, Ledger and Names about the tasks that
--     each connection's loop is given, Destroying and Stopping about `Stop`.
--   TimerQueue: src/timer.h, src/timer.cc, src/timer_id.h, src/timer_queue.h and
--     src/timer_queue.cc. The record has the members of `TimerQueue`, the memory of the timers
--     (`heap`), the counter of sequence numbers and what the timer descriptor was last set to.
--     TimerQueue/Sets has the invariant; Inserting, Adding, Cancelling and Destroying are the
--     operations between the rounds; Pointers, Erasing and Expiry are `getExpired`; Rounds is
--     what callbacks do, Resetting and HandleRead the end of a round and the whole of it,
--     Stopping a cancellation within a round, and Descriptor the time that the descriptor is set
--     to.
--   DatagramPacket: src/datagram_packet.h.
--   DatagramSocket: src/datagram_socket.h and src/datagram_socket.cc, with
--     DatagramSocket/Delivery on the way of a datagram from `Send` to `Receive` and the
--     receiver's queue.
--   UdpServer: src/udp_receiver.h, src/udp_receiver.cc, src/udp_server.h and src/udp_server.cc,
--     with the poller of Epoller and the worker of UdpWorker; UdpServer/Restarting is about an
--     error of the socket.
--   UdpWorker: src/packet_queue.cc, src/udp_worker.cc and `HandleRead` of src/udp_receiver.cc.
--     The record has the queue and, for each thread, its place in `OnThreadProcessPacket` and
--     `Pop`; a move is one thread's next piece under the lock or between locks, a packet that
--     comes, a stop, or a wake-up. UdpWorker/Flow and Order are about what becomes of the
--     packets, Dying, Leaving and Stopping about how the threads end.
--
-- Conventions. A pointer is a number. A failed `assert` (of the default build, without NDEBUG), an
-- index out of bounds and a pointer to no live object are faults: the result is `none`. A time
-- stamp is its number of microseconds, a callback is named by a number, and what its run does to the
-- queue of timers is a list of commands that may depend on the queue.
-- What the sources only call is a parameter or an argument: `std::copy_backward` with the contract of
-- the standard or with that of an implementation by memmove, the outcome of `readv`, `epoll_ctl` with
-- its effect on what is registered, the events of `epoll_wait`, the addresses of new timers, the
-- present time, the answers of a socket's system calls, `inet_pton`, `inet_ntop` and `getaddrinfo`,
-- and `Timestamp::AddTime` of the base library, which comes in compiled form.
-- All loops are over lists or count down, so that no fuel is needed.
--
-- Bounds. The storage of a buffer stays below 2^63 bytes where a theorem says so (the limit of a
-- `std::vector` of bytes), and one `readv` delivers fewer than 2^31 (the limit of Linux), so that
-- the cast to `int` keeps their number. Descriptors of sockets are above 0, which is the standard
-- input. The table of channels has the 2^20 entries of the source.
--
-- Not modelled: what the header of a file leaves out of its classes (constructors that only register
-- callbacks, names, texts for the log), the factory of pollers and the logging. The calls of the
-- timer queue are those on the loop's thread, where `RunInLoop` calls at once.
pub mod Acceptor
pub mod Base
pub mod Buffer
pub mod Channel
pub mod Connector
pub mod DatagramPacket
pub mod DatagramSocket
pub mod Epoller
pub mod EventLoop
pub mod EventLoopThread
pub mod EventLoopThreadPool
pub mod InetAddress
pub mod OrderedSet
pub mod Socket
pub mod TcpClient
pub mod TcpConnection
pub mod TcpConnector
pub mod TcpServer
pub mod TimerQueue
pub mod UdpServer
pub mod UdpWorker
