-- ===== src/Lib.antt =====
-- The concurrent and networking components of the repository, under code/: a blocking queue, the
-- byte buffer of a reactor, an RPC library whose protocol reads from that buffer, with its client and
-- its server, a logger's queue, a scheduler of timers, and the thread pool that runs them.
--
-- BlockingQueue (code/BlockingQueue/include/blocking_queue.hpp)
--   BlockingQueue/Ring.antt       `RingBuffer`: slots, head, tail and size, one function per member.
--   BlockingQueue/Queue.antt      `BlockingQueue`: one function per member function that changes it.
--     A function is the critical section of the call, from where a wait looks at its predicate; it
--     returns the object, the result and the notifications, or `blocks`. The timed calls take whether
--     the deadline has passed. `step` is the choice of the call.
--   BlockingQueue/Fifo.antt, BlockingQueue/Channel.antt  what a ring and a queue promise: a bounded
--     list, and a bounded list with a closed flag.
--   BlockingQueue/Schedule.antt   threads: the order in which their sections get the mutex is a list
--     of calls, so every interleaving is one schedule.
--   Which waiting thread a notification wakes, and that the scheduler is fair, are not modelled. The
--   const getters are not definitions of their own. A value's copy and move are one thing.
--
-- MiniReactor (code/MiniReactor)
--   MiniReactor/Buffer.antt       `Buffer` of src/net/Buffer.cpp: the vector and its two indices.
--     Writes are checked against the vector: an access outside it is `undefined`.
--   MiniReactor/Connection.antt   `TcpConnection` of src/net/TcpConnection.cpp on the thread of its loop,
--     over that buffer. What the kernel answers is a list, and what the message callback does a parameter;
--     MiniReactor/Connection/Run.antt has the events. That the kernel interrupts a call for ever is not
--     modelled: the loops end with the list.
--   MiniReactor/Connector.antt    `Connector` of src/net/Connector.cpp, with the sockets it makes. A handler
--     is one step, from its last look at the flag; what another thread stores in the flag between the
--     two looks of `startInLoop` is part of the event.
--
-- MiniRpc (code/MiniRPC)
--   MiniRpc/Protocol.antt         include/mini_rpc/protocol.h.
--   MiniRpc/Wire.antt, MiniRpc/Reader.antt, MiniRpc/Metadata.antt, MiniRpc/Frame.antt,
--   MiniRpc/Codec.antt            src/codec.cpp: integers, bounds-checked readers, the metadata of the
--     messages, the frame, and `RpcCodec`. The decoders read the model of the reactor's `Buffer`, and
--     rely on its theorems to take the frame out.
--   MiniRpc/Future.antt           `RpcFuture` of src/rpc_future.cpp.
--   MiniRpc/Client.antt           the data of `RpcClient` of src/rpc_client.cpp.
--   MiniRpc/Client/Sections.antt  its critical sections.
--   MiniRpc/Client/System.antt    its callers, its event loop and its futures' owners: an event is one
--     section, and a list of events is an interleaving. Deadlines, responses and changes of the
--     connection come when they like. A call may be counted in the total
--     at any time after it has got its id.
--   MiniRpc/Client/Handlers.antt, MiniRpc/Client/Call.antt  its operations, each as one run of its
--     sections, with what it asks of the event loop, the TCP client and the futures as effects.
--     `onMessage` runs over the codec and the buffer above.
--   MiniRpc/Registry.antt         `ServiceRegistry` of src/service_registry.cpp.
--   MiniRpc/Server.antt           `RpcServer` of src/rpc_server.cpp: what it does with a request, and
--     the job that it posts. The handlers of methods are a parameter. Server/Serving.antt runs it over
--     any order of requests and jobs. Server/Messages.antt is `onMessage`, over the codec and the buffer.
--   A map is the list of its values, in the order in which it is walked. What the event loop, the TCP
--   client and the TCP server do is not modelled.
--
-- AsyncLogger (code/AsyncLogger)
--   AsyncLogger/Ring.antt         `MpscRingBuffer` of include/async_logger/mpsc_ring_buffer.h, one step per
--     access to its shared words; a list of steps is an interleaving of producers and the consumer.
--   AsyncLogger/Writer.antt       `append_record` of src/async_logger.cpp and all that it calls: the buffer,
--     the log file, its backups and their rotation. Each call of the file system may fail.
--   AsyncLogger/Logger.antt, AsyncLogger/Logger/Steps.antt  `log`, `flush`, `stop` and the worker's loop of
--     src/async_logger.cpp, one step per access to a shared word, over the writer above. The queue is the
--     list of its values, as the ring keeps them when it has two cells or more, which the theorems ask
--     for: the ring of one cell lets a value be overwritten. `try_dequeue` may also fail while a cell is being filled.
--     AsyncLogger/Logger/Run.antt has the interleavings. The text of a record is a parameter, and the steps
--     assume sequential consistency.
--
-- TimerScheduler (code/TimerScheduler)
--   TimerScheduler/State.antt     the shared state and each critical section of TimerScheduler.cpp.
--   TimerScheduler/System.antt    the callers, the worker and the executor: an event is one section, or
--     a move of the executor, and a list of events is an interleaving. The lists of a `System` say
--     where the timers are that have left the heap. The thread pool is any executor that may accept or
--     refuse a wrapper, run the accepted ones in any order, or destroy them.
--   The waits of the worker are not steps: it may look at the heap at any time. The thread object, the
--   failure to allocate the completion, and a stop from inside a callback are not modelled. A time is a
--   number, and sums of times are taken not to leave the range of the clock.
--
-- ThreadPool (code/ThreadPool)
--   ThreadPool/Ring.antt          `BoundedRingQueue` of BoundedRingQueue.h.
--   ThreadPool/Local.antt         `LocalTaskQueue` of LocalTaskQueue.h.
--   ThreadPool/Pool.antt          ThreadPool.cpp and `post_for` of ThreadPool.h: each critical section.
--   ThreadPool/Pool/Threads.antt  the threads: an event is one section of one of them, with the tasks
--     that it takes in and that start, and a list of events is an interleaving. A caller is a worker of
--     the pool, a worker of another one, whose posts go to its own queue, or another thread.
--   The looks at all the local queues are taken at one time in `HasStealableWork`, and one by one in
--   `AllLocalEmpty`. `submit`, the wake-ups, and what a task does when it runs are not modelled.
--
-- Prelude.antt and Prelude/ hold what these share: outcomes of a C++ call (it returns, throws, waits or
-- is undefined), 64-bit sizes that wrap around, lists over the native numbers, signed integers.
-- Slots.antt has the lemmas on a window of slots in a ring.
--
-- The loops of `onMessage`, of the client and of the server, run on fuel: a round takes at least a header
-- out of the buffer, so one more than there are headers' lengths in it is enough. Each other loop of the
-- sources is bounded by a number or a list and is a recursion on it. Memory is not exhausted, except that
-- a vector does not grow past the largest size.
--
-- Not modelled: sockets, epoll, files, threads themselves, and the other components of the
-- repository.
pub mod Prelude
pub mod Slots
pub mod BlockingQueue
pub mod MiniReactor
pub mod MiniRpc
pub mod AsyncLogger
pub mod TimerScheduler
pub mod ThreadPool
