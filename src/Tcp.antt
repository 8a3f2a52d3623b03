-- ===== src/Tcp.antt =====
-- The code of tcp/: connections, the server and its loops.
pub mod Connection
pub mod Channel
pub mod ThreadPool
pub mod EventLoop
pub mod Server
pub mod Acceptor
pub mod LoopThread
