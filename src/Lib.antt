-- ===== src/Lib.antt =====
-- ThreadComponent: C++ building blocks for programs with threads and sockets.
--
-- Parts and files. Paths are from the repository's root.
--   cThreadQueue_V2.h, a queue behind a mutex with a cached size, is ThreadQueue: `Queue` holds
--   `m_queue` as a list, its front first, and `m_queueSize`; `push`, `push_queue`, `emplace`,
--   `assign_queue`, `try_get_front`, `get_front`, `get_front_count`, `get_all`, `clear`, `size` and
--   `empty` are its methods, and ThreadQueue/Move has `moveFrom` and the two moves over a store.
--   simple_container_V2.h, a sequence behind a mutex, is SimpleContainer: the list is `m_items`;
--   the six `grab` methods are `grab_count`, `grab_timed`, `grab_all_select`, `grab_count_select`,
--   `grab_offset_select` and `grab_select`. A selection function can answer or throw. The test cases
--   of examples/cTestSimpleContainer_V2.cpp are SimpleContainer/Scenarios.
--   cBaseWorker_V2.h, a worker thread, is BaseWorker: `Worker` holds the state, the flag, whether the
--   thread is joinable and the exception; `thread_step` is one step of `threadRunner`; `request_stop`,
--   `start_locked`, `take_finished` and `take_thread` are the locked parts of the methods, which
--   BaseWorker/Api composes, and BaseWorker/System interleaves with the threads. The heartbeat
--   stands in BaseWorker/Heartbeat.
--   cTCPSyncClient_V2.h, a client over sockets, is TcpSyncClient: its fields, errors, timeouts,
--   `connect` and `close` in TcpSyncClient/Client, `sendAll` in Send, the four receiving methods in
--   Receive, and the one-shot exchanges, with scope_exit.h, in Exchange.
--   cHTTPClient.h and cHTTPClient.cpp, a client over libcurl, are HttpClient: the helpers on texts in
--   HttpClient/Text, the response and the callbacks that fill it in Response and Headers, the request
--   and the options that are set for it in Request, and `perform` in Perform.
--   cHTTPServer.cpp, a server that is a worker, is HttpServer in parts: the calls that prepare a
--   server in HttpServer/Settings, Routes and Setup; `preRun`, `run` and `stopTriggered`, each as one
--   step, in Serving, and interleaved with the worker's thread in Hosted, for any `preRun` that has
--   the law of `Preparation`, which Preparations shows of both classes; the state of a start in
--   Start; the snapshot of a request in Snapshot, the functions that the library calls with it in
--   Requests, what a response is written in Answer, its copies on several threads in Copies, and its
--   bytes in Response; the texts in Text and Messages. cHTTPSServer.cpp is HttpServer/Secure and
--   SecureReplies. The server library gets the routes as a table from paths and methods to
--   functions; which of them it chooses for a request is an argument (`Target`).
--   cHTTPServer_V2.cpp, a worker around a server of Simple-Web-Server, is HttpServerV2: its fields and
--   methods in HttpServerV2/Server; cHTTPSServer_V2.cpp is HttpServerV2/Secure.
--   cTCPServer_V2.h, a server with a thread for each client, is TcpServer: a session and `handleClient`
--   in TcpServer/Session, `preRun`, `run` and the lists of sessions in Run, all threads together in
--   System. `taken` marks the sessions that a join has spliced out of `m_clients`.
--   cTCPClient_V2.h, a client with a reader and a writer, is TcpClient: `send`, `preRun`, `run`,
--   `writeLoop` with `sendAll`, and `readLoop` in TcpClient/Client, all threads together in System.
--   cGenericGrpcWorker.h, a server of one call of gRPC, is Grpc: the objects of the calls with
--   `Proceed` and the body of `run` in Grpc/Call, the events of the completion queue and
--   `stopTriggered` in System. `run` starts there before a stop. cGrpcServerWorker.h is Grpc/Metric.
--   Prelude holds the shared names, Boolean tests, list functions and signed integers.
--
-- How the parts interact. The worker is the base class of the servers, of the asynchronous client
-- and of the gRPC worker: it calls their `preRun` and `run` on its thread, and their
-- `stopTriggered` on that of a caller. The HTTP client reads what the HTTP server writes, in
-- HttpServer/Lines, Seen and Fetched, with libcurl between them. The queue, the container and the
-- synchronous client stand alone.
--
-- Steps and callers. A method that holds its lock throughout is one step. For the worker, whose
-- methods let go of the lock, the steps are its locked parts, and what others do in a wait is a
-- function of the worker. The calls of the operating system are the record `Os`, with what is relied
-- on in `Laws` and `Descriptors`; TcpSyncClient/Loopback is a concrete one.
-- In the two asynchronous classes for TCP the results of these calls are choices of the steps, and a
-- descriptor that was taken out of its slot stands in `closing` until it is closed.
-- libcurl is the record `Curl`, which gives a transfer as the sequence of its callbacks.
--
-- Fuel. A loop of the synchronous client repeats a call that a signal interrupted, and takes fuel.
-- One unit for each byte to send or receive, and one for each signal to come, and one more, are
-- enough; a loop over `receiveSome` takes fuel for its own rounds and for those of its calls. The
-- reader of a response takes one unit for each line and one more; the depth of calls of an error
-- handler is bounded by fuel, of which one is enough.
--
-- The server of Simple-Web-Server is a choice of how its calls end and what it reports.
--
-- Not modelled: the heartbeats of the functions of cHTTPServer, and what a handler does other than
-- to answer and to throw; the assignment of a response to another; what the callbacks of the TCP server are told of a client; the older
-- cTCPClient.h and cTCPServer.h, whose base class in cBaseWorker.h is not in the repository; the
-- other examples and the generated protocol code. Memory order, spurious wake-ups and failed
-- allocations are left out.
pub mod BaseWorker
pub mod Grpc
pub mod HttpClient
pub mod HttpServer
pub mod HttpServerV2
pub mod Prelude
pub mod SimpleContainer
pub mod TcpClient
pub mod TcpServer
pub mod TcpSyncClient
pub mod ThreadQueue
