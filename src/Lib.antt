-- ===== src/Lib.antt =====
-- A verification library for an epoll file server in C++.
--
-- A connection's bytes pass through these parts: `TcpConnection` reads them into a `Buffer` and
-- sends from another; `HttpServer::onMessage` moves them into `HttpContext`, which parses them into
-- an `HttpRequest` across any number of reads; `FileServer` answers with an `HttpResponse`, whose
-- text goes back to `TcpConnection::Send`. `TcpServer` keeps the table of connections and gives
-- each an `EventLoop` of the `EventLoopThreadPool`, which runs its handlers, the tasks that other
-- threads queue, and the timers of a `TimerQueue`. A loop waits in `Epoller` and calls the
-- `Channel` of each descriptor that is ready. All parts log lines through `Logger` and `LogStream`;
-- `AsyncLogger` can take these, and writes them to a `LogFile`.
--
-- Which file models which part:
-- - Buffer (children Blit, Invariant, Contents, Stream) is `Buffer`, and FixedBuffer is
--   `FixedBuffer`, both of utils/Buffer.h and utils/Buffer.cpp.
-- - Http.Request, Http.Context, Http.Response and Http.Server are the classes of http/HttpRequest,
--   http/HttpContext, http/HttpResponse and http/HttpServer. Http.Server.Idle is the timer that
--   closes idle connections. Http.Number is what they use of `std::stoul`, `std::stoi` and
--   `std::to_string`.
-- - Http.Wire says, independently of the parser, which text a request has, with a body of announced
--   length or in chunks. Http.Server.Pieces and Http.Server.Conversation send such texts through
--   the connection, the parser and the server. Http.Reply is the other direction: a reader of
--   responses, written from the protocol and not from the code, which takes the text of an
--   `HttpResponse` apart as a client does.
-- - FileServer is http/FileServer.cpp and FileHandler is utils/FileHandler.cpp, over a store that
--   maps paths to bytes, while which directories there are, and where a file can be opened for
--   writing, is an argument, `disk`; FileHandler.Directories has directories, over what
--   `std::filesystem` promises. FileServer.Connected is the whole way of a file through the
--   connection, the parser, the server and the store, and FileServer.Client what a client reads in
--   the answers.
-- - Tcp.Connection is tcp/TcpConnection.cpp, Tcp.Server tcp/TcpServer.cpp, Tcp.Acceptor
--   tcp/Acceptor.cpp, Tcp.EventLoop tcp/EventLoop.cpp, Tcp.ThreadPool tcp/EventLoopThreadPool.cpp,
--   Tcp.LoopThread tcp/EventLoopThread.cpp, and Tcp.Channel tcp/Channel.cpp and tcp/Epoller.cpp.
--   The modules called Registration follow the channel of a connection, of an acceptor and of a
--   loop from the constructor to the destructor; Tcp.Server.Lives follows the connections of a
--   server between the main loop, which holds the table, and their own loops.
-- - EchoServer is echo_server.cpp.
-- - TimerQueue is utils/TimerQueue.cpp and utils/Timer.h, with utils/TimerStamp.h in
--   TimerQueue.Clock; CurrentThread is utils/CurrentThread.h and utils/CurrentThread.cpp; LogStream
--   is utils/LogStream.h and utils/LogStream.cpp; Logger is utils/Logger.h and utils/Logger.cpp;
--   LogFile is utils/LogFile.cpp; AsyncLogger is utils/AsyncLogger.cpp, AsyncLogger.Files its use
--   of LogFile, and AsyncLogger.Thread its own thread among those that log; AsyncLogger.Statements
--   gives it the lines of Logger.
-- - Base holds what they share: numbers, byte strings, dictionaries, and exceptions as values.
--
-- Each class is a record, each member function a function of the same name in snake_case that takes
-- and returns that record. An exception is `throws`; a failed assertion is `none` or `aborted`.
-- What the system calls return, what the clock shows and what a callback does are arguments; the
-- event descriptor is a record of operations and one law, and `epoll` in Tcp.Channel one with the
-- laws of `epoll_ctl`. The threads around an event loop, and those of `StartLoop`, are a step
-- relation, one step for each locked section or system call. The threads around the asynchronous
-- logger, and those of the server, are sequences of events, each the code between two points where
-- another thread may come in; the theorems about them hold of every sequence that the code can run
-- through. A line that is logged while the part of `ThreadFunc` behind its loop runs, which takes
-- no lock, is a race, and no step of the model.
--
-- Bytes are numbers. `size_t` wraps at 2^64 where the code adds or subtracts what a peer sends.
-- Buffer lengths are taken to be below 2^31, so the `int` arithmetic on them does not wrap.
--
-- Loops over input run on fuel, and `exhausted` or `none` is what they give without it:
-- `parse_request` gives its loops one round more than the bytes they hold, since each round takes
-- at least one; the reader of Http.Reply gives the loop over the header fields one round more than
-- the bytes of the text; the versions of `Append` that read a stream need one round for each 4096
-- bytes and one more; the digits of a 64-bit number need at most twenty rounds; `LogFile::Write`
-- needs one round for each byte at most.
--
-- Not modelled: the path functions of PathUtils that only pass a path to `std::filesystem`; the
-- text that `GetTimeString` prints; the creation of threads; the creation and closing of the
-- descriptors of `epoll` and of events; what the handlers print; the programs http_server.cpp and
-- client.cpp, which only wire parts up or call the system, and the tests.
pub mod Base
pub mod Buffer
pub mod FixedBuffer
pub mod LogStream
pub mod CurrentThread
pub mod Logger
pub mod LogFile
pub mod AsyncLogger
pub mod Http
pub mod FileHandler
pub mod FileServer
pub mod Tcp
pub mod TimerQueue
pub mod EchoServer
