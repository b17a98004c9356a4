-- ===== src/Lib.antt =====
-- rtl: a C++ library of a task queue, a thread pool and a timer (stp/), a database layer over libpqxx
-- (db/), a WebSocket server (ws/), and the messages of a measuring device (protocol/). This development
-- models its core and proves what makes it correct.
--
-- Parts, and which file models which:
-- * Stp/Container and Stp/Queue are stp/UnbMpMcTemplateQueue.hpp, the queue that the thread pools and
--   the server put their tasks in. `ContainerOps` is an interface, a record that the queue takes as a
--   parameter; deque_ops, list_ops, vector_ops and priority_ops are its specialisations, with their
--   laws in Container/Laws. Its priority queue is over std::push_heap and std::pop_heap, a parameter
--   with its documented laws in Container/Heaps, and Container/Sorted is one pair that has them. A function of the queue is what one thread does while it holds the mutex. A
--   wait on a condition variable ends such a step, and the function named _resume goes on where the
--   wait returns, at any time: so the order of wake-ups is any, and nothing rests on the notifications.
--   An `Event` is one step of any thread.
-- * Stp/ThreadPool is stp/RtlThreadPool.hpp on the queue of Stp/Queue. A step of a worker is what it
--   does between two points at which it waits or calls its task; `put` is two steps, the look at the
--   pool's state and the call of the queue, and others may act between them. `join` is a step that
--   says which thread it still waits for. Tasks do not throw, since `put` wraps them, and threads
--   start.
-- * Stp/Timer is stp/RtlTimer.hpp: a step is a call, or what the timer's thread does from a return of
--   one of its waits to the next. Its executor is what takes the handlers that it hands on.
-- * Db/Errors is db/core/Errors.hpp, Db/Pqxx is db/core/detail/PqxxHelpers.hpp with libpqxx as the
--   parameter `Pqxx`, Db/Session is db/core/ConnectionTransaction.cpp, and Db/Session/Connection is
--   db/core/Connection.cpp. A call is a state-passing function with an `Outcome`: it returns, throws,
--   sleeps, or is undefined in C++, which here is the use of a destroyed pqxx::connection. The state
--   that a connection and its transaction share through a shared_ptr is one record beside the
--   transaction.
-- * Db/Rows is db/core/Result.cpp over a result of libpqxx, which is a record of what its functions say.
-- * Db/Pool is db/pool/PoolState.hpp, and Db/Pool/Handle is db/pool/PooledConnection.cpp and
--   ConnectionPool.cpp. The pool's vector is a list, with its back at the end; the counters are 64-bit
--   words with their wrap-around. A `System` is a pool with every handle that was ever made.
-- * Db/Tx is db/tx/Transaction.cpp, on a session of Db/Session: `returned` lists what its pooled
--   connection gave back to the pool. Db/Tx/Retry is db/tx/TransactionHelper.hpp over `TransactionOps`,
--   what it calls of a transaction and of the caller's function; its loop is by recursion on the
--   attempts that are left, and Retry/Outcomes says how one ends. Db/Tx/Savepoint is db/tx/Savepoint.cpp over `SavepointOps`, in the same
--   way. Db/Tx/Pooled fills both interfaces with the transactions of Db/Tx.
-- * Ws/Json is what ws/server/WsProtocol.hpp uses of nlohmann::json, a parameter with its documented
--   laws, and Json/Sample is one library that has them. Ws/Message is the messages of the same header
--   with their reading and writing, and Ws/Chunks its transfer of files: `blob_to_chunk` is in
--   Chunks/Split and `chunks_to_blob` in Chunks/Join. Functions that return early are do blocks of
--   Base/Partial. A file is its bytes, or that it does not open; sizes are 64-bit words with their
--   wrap-around.
-- * Ws/Router is ws/server/WsRouter.hpp, as far as it decides on handshakes. Ws/Session and
--   Ws/Session/Handlers are ws/server/WsSession.hpp: each function is one handler that the session's
--   executor runs, and returns the operations that it starts or posts. Ws/Session/Writer adds the
--   writes that are under way, and completes them in order. Ws/Session/Request is what a session keeps
--   of its request.
-- * Ws/App is ws/server/WsApp.hpp: the registration of handlers, the two gates of a handshake, and the
--   dispatch of messages. The maps are association lists of Base/Maps; a handler is any value, and a
--   dispatch says which is called. Middleware is middleware/Auth/IAuthenticator.hpp. App/Hosted puts
--   the application's gates behind the handshake of Ws/Session, with the principal that a session
--   holds.
-- * Ws/Server is ws/server/WsServer.hpp: an event is what one thread does while it holds the mutex, or
--   between two such regions, in any order. A weak pointer is the number of its session, and the list
--   of those that were destroyed says which are expired.
-- * Protocol is protocol/Request.h, protocol/I7580Message.cpp and protocol/I7580Protocol.cpp: a structure
--   is its bytes with the indices of its padding, and the serial channel is the parameter `Channel`.
--   Sizes are those of a 64-bit machine.
-- * Collectors is collectors/BufferCollectorTemplate.h.
-- * Allocators is allocators/LinearAllocator.hpp: `allocate` is a call that no other one interrupts, and
--   `run_threads` runs the two steps of the calls of threads that share an allocator in any order.
--   Allocators/Blocks is allocators/BlockAllocator.hpp, where an assertion that fails ends the
--   program.
-- * Base holds the shared helpers: Boolean tests, lists, slices, decimals and words over the native
--   numbers, maps, outcomes, and early returns.
--
-- All functions are total: runs are by recursion on the list of events, and loops on what they go
-- over, so there is no fuel.
--
-- Not modelled: real time in the database layer (a deadline is the Boolean of whether it has passed),
-- logging, the addresses and times of a connection, what a file holds after a write to it failed, the
-- other executors and the lock-free queue, coroutines, configuration, the WebSocket client and the
-- engine, and the server's calls of it.
pub mod Allocators
pub mod Base
pub mod Collectors
pub mod Db
pub mod Middleware
pub mod Protocol
pub mod Stp
pub mod Ws
