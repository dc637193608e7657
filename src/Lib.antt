-- ===== src/Lib.antt =====
-- KimRpc: an RPC framework with an io_uring server, a multiplexing client and discovery over etcd. The
-- files below model its logic; each names its source, by paths from the repository's root.
--
-- A client calls src/channel.cc (KimRpcChannel, many calls over one connection) or src/uringchannel.cc
-- (one blocking call over src/uringtcpclient.cc). Both ask src/rpcaddresscache.cc for an address, which
-- src/etcdclient.cc keeps current by a watch, and send a request frame. src/uringrpcprovider.cc takes
-- the frame off a connection of src/connectionmanager.cc, has the method run on a thread pool, and
-- sends the response frame back through its reactor.
--
--   Prelude       shared names, lists, integers, texts as byte lists
--   Wire          the two frames and the little-endian numbers in them (src/rpcheader.proto)
--   Conn          src/connectionmanager.cc: acquire, find, onSubmit, onComplete, close; contexts are
--                 never freed, so a pointer is a number and its memory is shared
--   Reactor       src/uringrpcprovider.cc: Submit (submitAccept, submitRecv, submitSend,
--                 submitNotifyRead), Request (tryHandleRequest, handleRpc), Handlers (handleAccept,
--                 handleRecv, handleSend, deliverResponse), Pool (workerThread, onPoolDone,
--                 resumeOnReactor, handleNotify), Progress (workers, eventfd and reactor,
--                 interleaved), EventLoop (eventLoop), Services (NotifyService), Startup (Run,
--                 startListen)
--   UserData      the words that tell completions apart (packUserData, io_uring_awaiter.h)
--   Etcd          src/etcdclient.cc: Base64, PrefixEnd, Client (Start, LeaseGrant, Put, RangePrefix,
--                 keepAliveLoop), Watch (parseWatchLine, watchWrite, WatchPrefixBlocking)
--   Discovery     src/rpcaddresscache.cc: GetRpcAddress and its watch callback
--   TcpClient     src/uringtcpclient.cc: Blocking (Connect, WriteAll, ReadSome, ReadExact), Async
--                 (AsyncConnect, AsyncWrite, AsyncRead, EventLoop)
--   Channel       src/channel.cc: Receive (recvAll, recvLoop), Calls (ensureConnected, sendLocked,
--                 callAsync, teardown), Once (the threads interleaved), Late (a call after the
--                 receiving thread's end), CallMethod, Blocking (the build without
--                 KIMRPC_ASYNC_CLIENT)
--   UringChannel  src/uringchannel.cc: CallMethod
--   Muduo         src/provider.cc: onMessage, sendRpcResponse; Startup (NotifyService, Run)
--   Registration  registerServiceToEtcd, the addresses it writes (Address, Decimal), and what a client
--                 finds of them (Instances, Rotation, Reaches)
--   EndToEnd      one call through client and server and back: Client, Server
--   Coro          src/include/coroutine: Machine (Task, its promise and awaiters, UringAwaiter), Loop
--                 (resumeFromCqe, drainCqes, sync_wait), Eval (bodies in direct style)
--   Config        src/config.cc: loadConfigFile, which reads buffers of 511 bytes at most, load, trim;
--                 Printed (files as a person writes them)
--   Application   src/application.cc: Init
--   Logger        src/logger.cc and the macros of its header: one writer, any threads that log
--   Controller    src/controller.cc
--   LockQueue     src/include/lockqueue.h
--   Tests         the theorems at concrete inputs
--
-- Bounds. A loop over what the kernel answers recurses on the list of its answers. The loop of
-- handleRecv has one round more than there are bytes of input, which is enough since each round that
-- goes on takes bytes off; recvLoop takes a number of frames, one more than there are is enough. onMessage
-- and loadConfigFile have a round for each byte, since a round that goes on takes a byte at least. Ids
-- and counters of 64 bits wrap around where the source's do. Counters that the code tests for a sign
-- are integers without a bound.
--
-- The machine of Coro takes a number of steps; there is a number after which it has ended or blocks.
--
-- Not in the model: the system calls that set up sockets, rings and buffers, protobuf, libcurl and the
-- JSON library (parameters), the moves of a Task, the start of a DetachedTask on the event loop's ring
-- (what a coroutine does that the event loop resumes is a parameter of EventLoop), and onConnection of
-- src/provider.cc, which only calls muduo. The eventfd's counter stays far below its limit, and a
-- read of it is taken to complete only once the counter is not 0.
pub mod Prelude
pub mod Controller
pub mod UserData
pub mod LockQueue
pub mod Wire
pub mod Conn
pub mod Reactor
pub mod Etcd
pub mod Discovery
pub mod TcpClient
pub mod Channel
pub mod UringChannel
pub mod Muduo
pub mod Config
pub mod Application
pub mod Logger
pub mod Coro
pub mod Registration
pub mod EndToEnd
pub mod Tests
