-- ===== src/Lib.antt =====
-- A verification library for the HTTP server in src/ and include/httpserver/: a C++ server on
-- Boost.Asio, Boost.Beast and Boost.URL.
--
-- The program. `HttpServerImpl` accepts connections and makes an `HttpSession` for each. A session
-- reads a request, looks up a handler in the `HttpRouter`, calls it, writes its response, and reads
-- again while the connection is kept alive. Sessions and server share a record of atomic counters.
-- The log is a layer over spdlog.
--
-- The files.
--   Base/ holds what the others share: text as bytes, `std::map` and `std::unordered_map` as
--     association lists (Dict, with the order of a map in Ascending), results that throw
--     (Result). `fault` stands for the use of a pointer to no node; the theorems on the router
--     show that it does not happen on a tree.
--   Types.antt: include/httpserver/detail/http_types.h, with the numbers of the enumerations.
--   Statistics.antt and Statistics/: src/http_statistics_internal.h. The counters wrap at 2^32
--     and 2^64. Count has each increment and decrement as an operation, Weave the interleavings
--     of those of several threads, Working the count of working handlers during one,
--     Advances and Serving what is so at each moment of one, Rising the counters that only rise.
--   Request.antt, Response.antt: src/http_request.cpp and src/http_response.cpp. A handler
--     reads a request with the accessors.
--   Router.antt and Router/: src/http_router.h. The nodes stand on a heap, a function from
--     addresses; `insert`, `search_segments` and `search_path` are `insert` and the two `search`
--     methods, with their loops `insert_from` and `search_from`. Shape and Walk hold the
--     invariant of a tree and the path to a node, Write and Insert what storing does, Search what
--     looking up does; Table states both against a table of routes; Paths and Shadow how paths
--     interfere; Errors why `insert` throws; Order the order of registrations, and Abstract the
--     router up to what it holds, as a quotient of the heaps. Delete has the destructors
--     `delete_node` and `delete_router`, Whole and Under that each node hangs below the root
--     once, Freed what the destructors leave.
--   Platform.antt: what the code takes from Boost, as the fields of a record that the model of
--     the session takes as a parameter. Documented.antt has the laws that theorems name as
--     hypotheses, Sample.antt a concrete platform that satisfies them.
--   Session.antt and Session/: src/http_session.h and src/http_session.cpp. `http_session`,
--     `destroy`, `run`, `do_read`, `do_write`, `on_write`, `do_close`, `write_response` and, in
--     Process, `on_read` and `process_request` are the methods of `HttpSession`. An asynchronous
--     operation that is started is an entry of `pending`; Lifecycle has the steps that complete
--     them, in any order that the code allows. A handler is a function from the request to the
--     responses that it sends before it returns; one that sends later is a step of its own, and
--     keeps its writer until then, or drops it. Jobs says which operations on the counters a
--     handler of a session makes, and Threads what handlers of several sessions do at the same
--     time; Emptied and Handled are about what one request leaves to the next, and about their
--     numbers; Fill and Filled about the response that is sent, Exchange about one that is written
--     and what comes next; Maps about the maps of a request and of a response. Lines has the lines
--     that each method logs, Logged those that reach the log, Closed what they say of the
--     connection.
--   Server.antt and Server/: src/http_server_impl.h and src/http_server_impl.cpp; HttpServer and
--     Forwards have the class of src/http_server.cpp, which forwards to them. `run` goes up to
--     `io_context_.run()`; what the context then calls are the steps of Running. Control has the
--     branches of `run`, Calls and Restart any sequence of public calls, Counters and Accounted
--     the invariant of the counters over all sessions, and Told what `getHttpStatistics` says of
--     them; Numbers has the numbers of the sessions, Drains how they come to their end,
--     Ranges the width of the counters, Snapshot what the call tells while threads
--     count, Registered and Routed which handler a request of a session reaches, Owners when the
--     object of the server is destroyed, and Stops what several threads do that call `stop` at once:
--     Pool, Safe, Steps and Apart where no call is between the test and the stop of another;
--     Effort, Nearer, Bounded and Ending that such calls come to their end; Overlap what else can
--     happen.
--   Demo.antt and Demo/: demo/main.cpp, its handler and what the server answers with it.
--   Log.antt and Log/: src/http_log.cpp and include/httpserver/detail/http_log.h, with spdlog as
--     the parameter `Spdlog`.
--
-- Loops run over lists and need no fuel; the recursion of the destructors has the number of nodes as
-- its fuel, and never runs out of it, nor do the digits of the demo, whose fuel is above the number.
-- Asynchronous steps are a relation, and a run of the program is a sequence of steps. A step is a
-- completion handler as a whole: where several threads run the context, the handlers of different
-- sessions interleave only through the atomic counters, and Session/Threads.antt is about these
-- interleavings. Server/Stops.antt has each statement of `stop` as a step, and Server/Snapshot.antt
-- each load of `getHttpStatistics`. A context that is stopped runs no handlers; a handler that still
-- owes a response may send it then, on a thread of its own. A timer that expires closes the socket
-- before the handler of the operation that timed out is called, as `tcp_stream` of Boost.Beast does.
-- `s_id` is a field of the server, though it is static: what other servers of the process do to it is
-- a step of Running. In Stops, what C++ leaves undefined is a point of a call, from which no theorem
-- says how it goes on.
--
-- Not modelled: the four log lines of src/http_server_impl.cpp; calls of `stop` before `run` has
-- started all threads of its pool; src/gzip.cpp and src/zlib.cpp, copies of Boost.Iostreams, whose
-- compressor is a parameter; the limit on the size of a request, which Boost.Beast enforces and
-- reports as an error of the read. A handler does not throw, since `APIHandler::handle` is declared
-- `noexcept`.
pub mod Base
pub mod Types
pub mod Statistics
pub mod Request
pub mod Response
pub mod Router
pub mod Platform
pub mod Session
pub mod Server
pub mod Demo
pub mod Log
