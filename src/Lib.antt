-- ===== src/Lib.antt =====
-- The plain framework: the data structures and wire formats that its networking stands on, the
-- connections and their manager, timers, two executors, its reader of ini files, and some of its
-- functions on strings.
--
-- The parts, by the file that models them, with the source below framework/core:
--   Ring: the ring buffer of include/plain/basic/ring.h, `Ring` with `FixedRing` and `DynamicRing`.
--     Ring/Invariant says when a ring is valid and what it holds; Ring/Write, Ring/Read, Ring/Insert
--     and Ring/Loss are about its operations, Ring/Window, Ring/Store and Ring/Grow carry their
--     proofs.
--   Endian: the byte order of include/plain/basic/endian.h, and how a host lays an integer out.
--   Net/Packet: the packet of src/net/packet/basic.cc, its flags and its reads and writes.
--   Net/Stream: the stream of src/net/stream/basic.cc, which is a growing ring of bytes between a
--     socket and the codecs. The socket is an argument: what each of its calls returns.
--   Net/Codec: the two codecs of src/net/stream/codec.cc, which peek into a stream and make packets.
--   Net/Connection: the connection of src/net/connection/basic.cc, its work flags, its streams and its
--     calls. Net/Connection/Commands is about handling packets, Net/Connection/Calls about remote
--     calls, Net/Connection/Errors about the count of errors, Net/Connection/Flags about the flags.
--   Net/Manager: the table of connections of src/net/connection/manager.cc, and how it balances their
--     work over an executor. Net/Manager/Table, Net/Manager/Remove and Net/Manager/Accept
--     are about the table, Net/Manager/Line, Net/Manager/Balance and Net/Manager/Turns about the
--     work, as a relation of steps.
--   Engine/TimerQueue: the queue of timers of src/engine/timer_queue.cc and src/engine/timer.cc, with
--     Engine/TimerQueue/Order and Engine/TimerQueue/Firing. Engine/TimerWorker is the thread that
--     processes it, Engine/TimerWorker/Waiting about when there is one.
--   Concurrency/Manual: the executor of src/concurrency/executor/manual.cc, with
--     Concurrency/Manual/Order and Concurrency/Manual/Shutdown.
--   Concurrency/Pool: the pool of threads of src/concurrency/executor/thread_pool.cc. Its
--     Idle is the set of idle workers (Counted, Found and FoundAll are about its counter and its
--     searches), Worker is one worker with the steps of its thread, of those that enqueue and of its
--     shutdown (Protocol keeps the invariant, Wake, Late and Leave draw from it, Ledger counts tasks),
--     and Share is the pool, which shares tasks among workers (Handed, Donated, Balance, Enqueue).
--   Concurrency/Result: what the producer and the consumer of a result share, of
--     src/concurrency/result/detail/state.cc and its header, as a relation of the atomic steps of
--     both sides. Concurrency/Result/Protocol keeps its invariant, Concurrency/Result/Reached draws
--     from it, and Concurrency/Result/WhenAny is about one order of steps.
--   File/Ini: the reader of ini files of src/file/ini.cc. File/Ini/Line is about its lines,
--     File/Ini/Values about its maps and its buffer, File/Ini/Reference and File/Ini/Entries about what
--     a lookup finds in lines, File/Ini/Saying about what the bytes of a line say, File/Ini/Lookup about reading a whole file, File/Ini/Errors about going
--     out of bounds.
--   Rpc: the formats of src/net/rpc/packer.cc, src/net/rpc/unpacker.cc and their headers. Rpc/Packer
--     and Rpc/Unpacker are the operations, Rpc/Tag the type tags; the other files are about reading
--     back what was packed: Rpc/Unsigned and Rpc/UnsignedTrip, Rpc/Signed and Rpc/SignedTrip,
--     Rpc/Text.
--   Utility: functions on strings of src/basic/utility.cc. Utility/Escape is about escaping, Utility/Hex
--     about hexadecimal digits and the halves of a number, Utility/Explode about splitting, and
--     Utility/Number is about numbers put into strings.
--   Prelude: the names and lemmas that the parts share.
--
-- An operation keeps the name of its method, and takes and returns the object as a value; overloads
-- have the name of their type behind. A `size_t` that the source lets wrap around is a number below
-- 2^64 with the wrap-around written out (Prelude/Words). A byte is a number below 256.
--
-- Threads. An operation that holds a lock is one step, and what several threads do is a sequence of
-- such steps in any order: a relation of steps for the manager's work, for the worker of the timers and
-- for the two sides of a result, a list of calls between two rounds for the manual executor, and a list
-- of events for a worker of the pool. The pool itself makes one call at a time. What the code reads and
-- others write (a clock, whether a timer is cancelled, what a socket answers) is an argument for each
-- reading.
--
-- Bounds. The loop of `Ring::write` that doubles the size and the loop of `Stream::push` have the
-- source's own limits of 99 rounds, and the doubling finds a size up to 2^63 in these rounds. The loop of
-- `process_timers` is given rounds, and more than there are due timers are enough. Times, counts of jobs
-- and ids are numbers that do not overflow, and so are the positions in the buffer of an ini file.
-- A search of the pool's workers goes round once.
--
-- Not modelled: other threads at a ring, so an atomic is its value; coroutines, so a socket is not
-- awaited; floats, tuples and nested objects of a remote call; callbacks and the timeouts of calls; tasks
-- that throw; the reader of tab files and the table of remote functions; the functions on paths,
-- passwords and charsets; and the parts of the framework that call the operating system. `std::abs` of
-- the least `int` wraps around in packing 64 bits, as it does when compiled; packing the least 32-bit
-- number itself gives `none`. The memory in front of an ini file's line is one byte, an argument. How
-- long the packet of an answer lives is outside: an `Unpacker` is a range of its bytes.
pub mod Prelude
pub mod Ring
pub mod Endian
pub mod Net
pub mod Rpc
pub mod Utility
pub mod Engine
pub mod File
pub mod Concurrency
