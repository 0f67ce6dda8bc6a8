-- ===== src/Lib.antt =====
-- kwNet, a reactor library for TCP and HTTPS clients and servers in C++: an event loop over epoll with
-- channels, timers and a queue of pending functors; connections with input and output buffers; an
-- HTTPS client on top. The models are translations of the sources, function by function; a call that
-- may fail an assertion, throw or meet undefined behaviour returns an `Outcome`, whose `fault` may fail an assertion, throw or meet undefined behaviour returns an `Outcome`, whose `fault` names (Prelude/Outcomes). Where only what undefined behaviour leaves behind matters, that
-- is an argument. The statements that log are left out everywhere.
--
-- Prelude: numbers, lists, words of 64 bits with the wrap written out (Prelude/Words), ordered maps
-- (Prelude/Maps), outcomes.
--
-- Buffer (src/Memorys/Buffer.h, src/Sockets/Endian.h): the byte vector with its two indices. The
-- operations keep their names in lower case; pointers into the vector are offsets. `readv` is its
-- answer, an argument of `read_fd`. Buffer/Append, Buffer/Read, Buffer/Retrieve, Buffer/Endian and
-- Buffer/Search hold the laws, over the readable bytes (`content`, Buffer/Invariant). `append` may grow
-- the vector up to `max_size`, the limit of std::vector<char>.
--
-- TimerQueue (src/Timers): the map from times to timers, `insert`, `addTimer`, `cancelTimer`,
-- `handle_timers` with its `reset`, and the period that the timer descriptor is armed with. The clock
-- and the effect of the callbacks are arguments. The loop of `handle_timers` takes fuel; the number of
-- times in the map is enough.
--
-- Connector (src/Connector.cpp): the attempts to connect of a client, with the delays between them, the
-- channel of a pending attempt and the socket that is handed over (Connector/Ownership,
-- Connector/Backoff, Connector/Retry). The answers of the kernel are arguments.
--
-- Poller (src/basics/Poller.cpp, src/basics/Channel.cpp): the channels of a loop by their descriptors, what
-- they listen to, `updateChannel` with the set of descriptors that the kernel watches (Poller/Update), and
-- the dispatch of ready events to the callbacks (Poller/Dispatch), whose effects are arguments.
--
-- StateWord (src/TcpConnection.cpp): the atomic word `state_`, with the bits `Disconnected`, `Connected`,
-- `used` and `writing` and the number of senders, which `send` and `sendInLoop` of many threads,
-- `set_unused` and `handle_ep_hup` share. Each thread is a place in its function; a list of thread
-- numbers is an interleaving of their accesses (StateWord/Interleaving, StateWord/Sequential). The word
-- starts as `connectEstablished` stores it, so the waits for `Connecting` are left out there.
-- StateWord/Closing has `shutdown` against the list of values of the word that its accesses meet, and whether a sleep was
-- interrupted, the wait for `Connecting` included (StateWord/Closing/Shutdown), and `forceCloseInLoop` while other threads send
-- (StateWord/Closing/Blocked).
--
-- MpmcQueue (src/helpers/queue.h): the ring of the bounded queue, as the single accesses to memory that
-- `try_push` and `try_pop` make (`access`); a history is a list of call numbers, each with a flag that
-- lets a weak compare-and-swap fail for no reason. A thread that makes several calls is several numbers.
-- MpmcQueue/Fifo is the queue it stands for, MpmcQueue/Invariant and MpmcQueue/Owned what holds between the
-- accesses, MpmcQueue/Steps that they keep it, MpmcQueue/Behind what a refused call can conclude, MpmcQueue/Refine and MpmcQueue/Runs that they do what the queue does,
-- MpmcQueue/Alone a call that runs by itself, and MpmcQueue/Retry the loops of `push` and `pop`; their fuel,
-- 323, is one more than the attempts they can make. Accesses are taken as sequentially consistent.
--
-- EventLoop (src/EventLoop.cpp): the turns of `Loop` against calls of `runInLoop`, `queueInLoop` and `quit_`
-- from other threads. The queue of functors is a first-in first-out list of bounded length; that `try_pop`
-- is refused while the push of the oldest element has not returned only makes the loop try again, and is
-- left out. The
-- descriptor that `eventfd` gives is a parameter (`Eventfd`), which is readable after a write; what the
-- functors and the channels' callbacks do to the loop is an argument (`acts`). EventLoop/Wakeup has that no
-- functor waits unheard, EventLoop/Order the order of the functors with what they did to `quit` (EventLoop/Acted), EventLoop/Drain a loop by itself.
--
-- AsyncLogger (src/Loggers/AsyncLogger.cpp): the callers of `append`, the thread of `threadFunc` and `stop`
-- around the word `state`. A line is anything with a length. Since one thread at a time is at the
-- buffers (AsyncLogger/Lock, AsyncLogger/Exclusion), it takes them in one access. `newBuffer1` and
-- `newBuffer2` are empty whenever they are used, and are not kept. AsyncLogger/Lines has where the lines
-- are, AsyncLogger/Lost when they get nowhere.
--
-- LogStream (src/Loggers/LogStream.h, src/Loggers/LogStream.cpp): `convert` and `convertHex`, and what each
-- `<<` does to the buffer of a line, a list of character codes. 20 decimal and 16 hexadecimal digits are the
-- fuel, enough for 64 bits (LogStream/Digits). LogStream/Numbers reads the numbers back, LogStream/Stream has
-- the whole line.
--
-- LogFile (src/Loggers/LogFile.cpp, src/Loggers/FileUtil.cpp): `append_impl`, `roll` and
-- `AppendFile::append`, with the clock and the answers of `fwrite` as arguments (LogFile/Rolls).
--
-- TcpServer (src/TcpServer.cpp, src/EventloopThreadPool.cpp, src/basics/Acceptor.cpp): the connections that
-- `handleRead` accepts, with their loops and the objects that hold their addresses (TcpServer/Accepting), and
-- their removal (TcpServer/Removal). The answers of `accept` are an argument.
--
-- TcpClient (src/TcpClient.cpp): the flags `connect_` and `retry_` and the one connection of a client, with
-- the calls of its connector and connections as a list. TcpClient/Stopped is about a client that was stopped.
--
-- Connection (src/TcpConnection.cpp): the event handlers `handle_ep_in`, `handle_ep_pri`,
-- `handle_ep_out`, `handle_ep_rdhup`, `handle_ep_hup`, `handle_ep_err`, with `finish_in_out`, and
-- `sendInLoop` up to its last loop (Connection/Send); and `send` of a `stringPiece`, `send` of a buffer and
-- `send_OOB`, from the word to the functor that they queue (Connection/Handover), where memory is a function
-- of addresses that may be freed. It uses Buffer for the input and for each queued
-- output. The answers of `readv`, `recv` and `write` are lists, and an exhausted list means that the
-- kernel would block, so that each loop is a recursion over its list. `wire` holds the bytes that the
-- kernel took, `calls` the user's callbacks. Connection/Queue has the bytes that are queued; the laws
-- are in Connection/Input, Connection/Output, Connection/Stuck and Connection/Send/Written.
--
-- SslConnection (src/https/ssl_TcpConnection.cpp): the same handlers over `SSL_read` and `SSL_write`
-- (SslConnection/Input, SslConnection/Output, SslConnection/Over), and `sendInLoop` (SslConnection/Send).
-- The last loop of `finish_in_out` takes fuel, since it need not end (SslConnection/Finish); one more
-- than the number of buffers is enough where it does.
--
-- HttpClient (src/https/https_client.cpp, src/https/http_util.cpp): the URL parser
-- (HttpClient/ParseUrl), the requests (HttpClient/Request), the callbacks that llhttp calls and
-- `on_message` (HttpClient/Response), and `get`, `post` and `on_connection` over the requests that
-- wait and the clients by URL (HttpClient/Clients). What llhttp reports and what `memset` leaves of a response
-- are arguments. `decimal` prints a number n with n + 1 as fuel, more than its digits.
--
-- ThreadPool (src/Threads/ThreadPool.cpp): `submit`, `stop` and the threads of a pool, in every
-- interleaving (`pool_history`). The queue is a list of bounded length; a push and a `try_pop` are single
-- steps. As MpmcQueue/Fifo has it, they are refused also while a call of the other kind has not returned,
-- which a flag of the step says; and `push` gives up in the end, which drops its task. ThreadPool/Counts counts tasks, ThreadPool/Kept and ThreadPool/Drained have where
-- they are, ThreadPool/Stopping how long the threads go on.
--
-- Latch (src/Threads/CountDownLatch.cpp, src/Threads/Mutex.h, src/Threads/Condition.h): `wait` and `countDown`
-- with the mutex and the condition, in every interleaving, and with wake-ups without a signal. Latch/Fair has
-- the invariant, Latch/Woken that it is kept.
--
-- Logger (src/Loggers/Logger.cpp, src/Loggers/Logger.h): a statement from its macro to the output function,
-- over LogStream (Logger/Levels); the time as text, with `gmtime_r` and `localtime_r` as parameters
-- (Logger/Split, Logger/Stamp); the name of a source file.
--
-- SignalHandler (src/SignalHandler.cpp): the setters, the mask that `init` makes, and the dispatch
-- (SignalHandler/Delivered). What `read` gives is an argument.
--
-- Sockets (src/Sockets/InetAddr.cpp, src/Sockets/SocketOps.cpp): the addresses and their texts, with
-- `inet_pton` and `inet_ntop` as parameters (Sockets/Texts), the comparison of a connection's two ends
-- (Sockets/Endpoints), and the arguments of `setsockopt`.
--
-- Not modelled: the wait for events and the removal of channels; what in the sockets, threads and OpenSSL
-- only calls the system and logs; llhttp and the JSON library, which are third-party code.
pub mod Prelude
pub mod AsyncLogger
pub mod Buffer
pub mod Connection
pub mod Connector
pub mod EventLoop
pub mod HttpClient
pub mod Latch
pub mod LogFile
pub mod LogStream
pub mod Logger
pub mod MpmcQueue
pub mod Poller
pub mod SignalHandler
pub mod Sockets
pub mod SslConnection
pub mod StateWord
pub mod TcpClient
pub mod TcpServer
pub mod ThreadPool
pub mod TimerQueue
