-- ===== src/Lib.antt =====
-- libglim: the headers of small C++ utilities, of which this library models the string class, the pool of
-- fields that is built on it, the channel between threads, the exceptions, the databases of leveldb and
-- LMDB, the sessions and statements of SQLite, the requests of curl and of libevent, the jobs of an event
-- loop and the coroutines.
--
-- gstring.hpp is a string of one control word and one pointer. The word packs two flags, the logarithm of
-- the buffer's size and a length of 24 bits; the buffer is owned, or belongs to somebody else.
--   Words        the masks of the control word
--   Memory       malloc, realloc, free, memcpy and the blocks they work on
--   Gstring      the control word; Gstring.Object the methods, as commands on an object and the memory
--                (a fault is undefined behaviour); Gstring.Numbers append64 and appendNetstring
--   Itoa         the function itoa
--   Compare      equals, operator <, find and the hash, on the bytes of a string
--   Netstring    netstringAt, readNetstring, the encoders and the wrappers of strtol, on the bytes of a
--                string or a stream
-- SerializablePool.hpp keeps the fields of a record in one string, behind a table of offsets.
--   Pool         the pool with its changes, on the bytes of the strings; a result of none is an exception,
--                a failed assertion or an access outside the string
-- channel.hpp hands values from sending to receiving threads.
--   Channel      a step relation over single accesses to the mutex, the state and the value
-- exception.hpp is the exception class with the thread's options.
--   Exception    the objects and the guards; Exception.Scopes the guards in nested scopes
-- ldb.hpp wraps leveldb.
--   Ldb          the uint32_t keys and the iterators; leveldb's own iterator is a record of operations, and
--                Ldb.Prefix.Snapshot is what it promises. Ldb.Store has put, get, have, del and write with
--                the batches and the triggers, on a record of leveldb's operations, and
--                Ldb.Updates.Promises is what these promise
-- mdb.hpp wraps LMDB.
--   Mdb          the operations, the transactions and the triggers; LMDB is a record of operations on a
--                list of entries, Mdb.Laws what it promises and Mdb.InMemory a store that keeps the promise
-- hget.hpp makes requests with libevent, round robin over several URLs.
--   Hget         the request, its callback and the repetitions of goUntil
-- runner.hpp runs jobs and curl requests on an event loop.
--   Runner       the jobs and the timer; Runner.Handlers the curl handles; Runner.Lifetime the counter
--                and the thread of RunnerV2, as a step relation over single accesses; Runner.Loop its
--                loop over the CURL handles
-- sqlite.hpp wraps SQLite.
--   Sqlite       the statements; SQLite is a record of operations on a state. Sqlite.Sessions are the
--                sessions, as a step relation
-- curl.hpp makes requests with libcurl.
--   Curl         the payload and the callbacks that hand it over; the sizes are those libcurl asks for.
--                Curl.Debug has the text of debugListenerF
-- cbcoro.hpp runs coroutines on stacks of their own.
--   Coroutine    the stacks of one size and their cache; mmap and munmap are parameters
--                Coroutine.Control hands the control of the threads over, as a step relation
-- Base holds the shared tests, lists and numbers.
--
-- Bounds: a gstring holds fewer than 2 ^ 24 bytes, and its capacity is at most 2 ^ 24. The loop of
-- `reserve` runs on 31 rounds less the power, since a shift by 32 is undefined; that of the buffer-reusing
-- constructor on 31 rounds. `itoa` runs on 64 rounds, the number of binary digits of an int64_t.
-- `realloc` is taken to move the block each time, and malloc to grant blocks up to a largest size. The loops
-- over a database and those of goUntil and SqliteParQuery run on rounds; their theorems say how many are
-- enough.
--
-- Not modelled: memcache.hpp and the headers for timers and raii; what getcontext and swapcontext save; the
-- sockets of Runner; the generated protocol of RethinkDB (ql2.pb.h, ql2.pb.cc).
pub mod Base
pub mod Words
pub mod Memory
pub mod Gstring
pub mod Itoa
pub mod Netstring
pub mod Compare
pub mod Pool
pub mod Channel
pub mod Exception
pub mod Ldb
pub mod Sqlite
pub mod Curl
pub mod Mdb
pub mod Hget
pub mod Runner
pub mod Coroutine
