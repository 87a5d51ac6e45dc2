-- ===== src/Lib.antt =====
-- A model of the network library: a reactor that runs callbacks for the events of file descriptors,
-- and the TCP connections on top of it.
--
-- A TcpConnection (src/TcpConnection.h, src/TcpConnection.cc) owns two Buffers (src/Buffer.h,
-- src/Buffer.cc) and a Channel (src/Channel.h, src/Channel.cc), which says for what events its
-- socket waits. The Channel passes on each change of its mask through its EventLoop
-- (src/EventLoop.h, src/EventLoop.cc) to the Poller (src/Poller.h, src/Poller.cc,
-- src/EPollPoller.h, src/EPollPoller.cc), which keeps a map from file descriptors to channels and
-- tells epoll. The loop polls, lets the active channels call their callbacks, and calls the
-- functors that its own thread or others have queued.
--
-- The files:
--   Base.antt           Helpers: outcomes and faults, Boolean tests, lists, and maps by number.
--   Sys.antt            The system calls as a parameter, with what their manual pages promise.
--   Buffer.antt         Buffer: `append` is append(), `retrieve` is retrieve(), and so on. A
--                       pointer into the vector is its offset.
--   Channel.antt        Channel: `with_reading` and the like are the masks that enableReading() and
--                       the like store; `handle_event` is handleEvent().
--   Poller.antt         EPollPoller: `update_channel` is updateChannel(), `ctl` is update().
--   EventLoop.antt      EventLoop. A `Reactor` is what the thread of a loop works on: the loop, the
--                       kernel, the channels by address, and the state of all else. `enable_reading`
--                       and the like are those of Channel with the update() in them.
--   EventLoop/Creation.antt  The constructor and destructor of EventLoop, and the choice of its
--                       poller (src/DefaultPoller.cc); with t_loopInThisThread in Creation/OwnThread.
--   EventLoop/Interleave.antt  queueInLoop() from other threads, one action at a time.
--   TcpConnection.antt  TcpConnection: `send_bytes_in_loop` is sendInLoop(), `handle_write` is
--                       handleWrite(). The functions `after_...` are the rest of a function
--                       behind a system call.
--   TcpConnection/Many.antt  Calls on several connections of one loop.
--   TcpConnection/Handling.antt  Those functions of TcpConnection that call callbacks, which are a
--                       parameter: `connect_destroyed_now` is connectDestoryed().
--   EventLoopThreadPool.antt  The pool of loops of a server (src/EventLoopThreadPool.h,
--                       src/EventLoopThreadPool.cc), in which a thread is started by a parameter.
--   Text.antt           The texts that snprintf and sprintf print, as lists of bytes.
--   Socket.antt, InetAddress.antt, Timestamp.antt  The classes of src/Socket.h, src/InetAddress.h and
--                       src/Timestamp.h with their .cc files. The functions of arpa/inet.h and
--                       localtime are parameters.
--   Logger.antt         The macros and the class of src/Logger.h and src/Logger.cc.
--   Acceptor.antt       Acceptor (src/Acceptor.h, src/Acceptor.cc): `handle_read` is handleRead().
--   Thread.antt         The members of Thread (src/Thread.h, src/Thread.cc), and CurrentThread.
--   EventLoopThread.antt  startLoop(), threadFunc() and the destructor of EventLoopThread
--                       (src/EventLoopThread.h, src/EventLoopThread.cc), one action at a time.
--   TcpServer.antt      TcpServer (src/TcpServer.h, src/TcpServer.cc): `new_connection` is
--                       newConncetion(), `remove_connection_of` is removeConnection(). The loops of
--                       the other threads stand by address in its state.
--   TcpServer/Lifetime.antt  Its constructor, start() and destructor.
--   TcpServer/Threads.antt  startLoop() as the pool of a server calls it, which makes a loop.
--   TcpServer/Dispatch.antt  The callbacks of the channels of a server, and its loop with them.
--   EchoServer.antt     The example (example/echoserver.cc): `on_message` is onMessage().
--   EchoServer/Program.antt  Its start() and main().
--   Tests.antt          Concrete inputs, over a kernel that can be computed.
--
-- Bounds and fuel. A size_t sum or difference is taken modulo 2^64; `max_size` is max_size() of a
-- vector of char, 2^63 - 1. `loop` takes fuel, a number of rounds: a server's loop need not
-- end, and a run that ends needs one more than its rounds.
--
-- What a call does that cannot return is a `Fault`: LOG_FATAL ends the process, an empty
-- std::function throws bad_function_call, a vector throws length_error; a copy outside a vector and
-- a use of a string that is gone are faults of the model.
--
-- The text of a number takes fuel, which is above the number and so above its digits.
--
-- Not modelled: the setters of callbacks, which are the handlers that a function is given; the
-- numbers of shared_ptr owners, and with them the destructor of TcpConnection, which closes its
-- socket: a tied object is alive or not by a parameter of `handle_event`; the type names of
-- src/Callbacks.h and src/noncopyable.h. Log lines that the components print are left out.
pub mod Base
pub mod Sys
pub mod Text
pub mod InetAddress
pub mod Socket
pub mod Timestamp
pub mod Buffer
pub mod Channel
pub mod Poller
pub mod EventLoop
pub mod TcpConnection
pub mod EventLoopThreadPool
pub mod Logger
pub mod Thread
pub mod EventLoopThread
pub mod Acceptor
pub mod TcpServer
pub mod EchoServer
pub mod Tests
