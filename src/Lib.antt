-- ===== src/Lib.antt =====
-- The windgent server framework: the parts that hold its core logic, as functions on values.
--
-- windgent is a C++ framework of coroutines for network servers. Sockets and the HTTP layer stand
-- on the scheduler of fibers (IOManager), which asks the timer manager for the time of the next
-- timer and for the callbacks of those that are due. Data for the wire is packed in byte arrays,
-- chains of memory blocks with typed readers and writers.
--
-- ByteArray models windgent/bytearray.cc, windgent/bytearray.h and windgent/endian.h.
--   ByteArray/Chain.antt: the blocks (ByteArray::Node) and m_cur, and the loops of write, read and
--     setPosition as recursion over the blocks that are ahead. A null pointer that is followed is
--     a value of its own, so that its absence can be proved.
--   ByteArray/Store.antt: the fields, and the operations on raw bytes. A call ends with a value,
--     with the exception std::out_of_range, or with undefined behaviour.
--   ByteArray/Fixed.antt, Varint.antt, Strings.antt: the typed readers and writers. The byte order
--     of the machine is an argument. A float is the pattern of its bits.
--     A signed integer that overflows in EncodeZigzag is undefined behaviour.
--   ByteArray/Buffers.antt: getReadBuffers and getWriteBuffers, with an address as the number of a
--     block and an offset.
--   ByteArray/Integers.antt: integers as bytes in memory, and byteswap.
--   ByteArray/Invariant.antt and Spec.antt: what a well-formed array is, and the view of an array
--     as a file of bytes with a position. The other files of ByteArray hold proofs.
-- The contents of new memory, which C++ leaves open, are a function in the state. Positions and
-- sizes are unbounded but for the two differences getReadSize and getCapacity, taken modulo 2 ^ 64.
-- The loops of the seven-bit groups run on fuel that the source gives: 5 and 10 rounds, and buffers
-- of 5 and 10 bytes.
--
-- Timers models windgent/timer.cc and windgent/timer.h.
--   Timers/Manager.antt: timers are objects that users and manager share, so they stand in a store
--     by address; the std::set is the list of the addresses in its order. The clock is an argument
--     of each call, and the hook onTimerInsertedAtFront is a result. Each call is one step: the
--     lock is not modelled. erase of the end of the set is a value of its own.
--   Timers/Order.antt, Expiry.antt, Invariant.antt, Operations.antt, Collect.antt: the order of
--     the set, the cut at a time, the invariant, and what each operation does.
--
-- Servlets models ServletDispatcher of windgent/http/servlet.cc and windgent/http/servlet.h.
--   Servlets/Table.antt: the tables by URI. Servlets/Dispatcher.antt: the dispatcher, with the lock
--     as a flag that says whether the thread holds it, and another that says whether the lock then
--     refuses the thread (EDEADLK) or blocks it; fnmatch is an argument.
--     Servlets/NotFound.antt: the servlet for what is not found. Servlets/Keys.antt and Choice.antt
--     hold proofs.
--
-- Descriptors models windgent/fd_manager.cc and windgent/fd_manager.h.
--   Descriptors/Table.antt: the vector of pointers. Descriptors/Manager.antt: FdCtx and FdManager,
--     with fstat as an argument and the flags of the descriptors in the state; an access out of the
--     vector's range is a value of its own, and the size of the vector is cut to an int as in the
--     source. Each call is one step. Descriptors/Contexts.antt holds
--     proofs.
--
-- Scheduler models windgent/scheduler.h and a part of windgent/scheduler.cc: Scheduler/Queue.antt has
--   the tasks and the queue, Scheduler/Take.antt how a thread takes a task.
--
-- IoManager models windgent/iomanager.cc and windgent/iomanager.h, over Timers and Scheduler.
--   IoManager/Contexts.antt: FdContext and its events. IoManager/Operations.antt: addEvent,
--     delEvent, cancelEvent, cancelAll and what idle does with an event. IoManager/Idle.antt: the
--     rounds of idle. Whether epoll_ctl refuses a call is an argument, and what epoll watches is a
--     part of the state; an assertion that fails is a value of its own, and so is a null scheduler.
--     A descriptor is a number that is not negative, and the size of the table is cut to an int where
--     the source casts it.
--   IoManager/Invariant.antt, Fire.antt, Registered.antt, Cancel.antt, Resize.antt, Add.antt,
--     Sequence.antt and Delivery.antt hold the invariant and proofs.
--
-- Http models windgent/http/http.cc and windgent/http/http.h.
--   Http/Methods.antt and Statuses.antt: the tables. Http/Headers.antt: the maps whose keys have no
--     case. Http/Messages.antt: HttpRequest and HttpResponse, with lexical_cast as an argument.
--     Http/Dump.antt: what is written. Http/Frames.antt and Fields.antt: a reader of such texts and
--     what it is to find. Http/HeaderLaws.antt and RoundTrip.antt hold proofs. The digits of a
--     number run on fuel, the number itself, which is never less than their count.
--
-- Client models windgent/http/http_connection.cc and windgent/http/http_connection.h.
--   Client/Requests.antt: the requests that are built. Client/Pool.antt: the pool. Client/
--     Exchange.antt: doRequest, with what touches the network or the clock as arguments.
--     Client/RequestLaws.antt and PoolLaws.antt hold proofs.
--
-- Streams models windgent/stream.cc and windgent/socket_stream.cc: Streams/Loop.antt has the loops,
--   over a read or a write as an argument, on fuel. Streams/Laws.antt holds proofs.
--
-- Log models the levels and the patterns of windgent/log.cc and windgent/log.h.
--   Log/Levels.antt: LogLevel. Log/Patterns.antt: the loops of LogFormatter::init over a pattern, on
--     fuel, for which the length of the pattern is enough. Log/Items.antt: the items that are made.
--     Log/Pieces.antt and PatternLaws.antt: patterns as they are meant, and proofs.
--
-- Not modelled: the files and the hexadecimal dump of ByteArray; the servlets of users;
-- the fibers, what a scheduler does with a task it has taken, and the hooks; sockets, addresses and
-- URIs; the parsers and the server of HTTP and the receiving of a response; loggers and appenders;
-- configuration. These are planned, but for what only calls the system or comes from elsewhere.
pub mod Prelude
pub mod ByteArray
pub mod Timers
pub mod Client
pub mod Descriptors
pub mod Http
pub mod IoManager
pub mod Log
pub mod Scheduler
pub mod Servlets
pub mod Streams
