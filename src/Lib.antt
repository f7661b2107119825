-- ===== src/Lib.antt =====
-- A verification library for stream-client, a header-only C++ library of sockets with a timeout on
-- every operation, of connectors that establish them, and of connection pools. All of the code is
-- under include/stream-client/.
--
-- The parts and how they interact. A timed_base owns a timer and an io_service; sockets and the
-- resolver derive from it. An operation arms the timer by scope_expire, starts an asynchronous call
-- and runs the io_service until the handler has stored an error code; a deadline that fires before
-- closes the socket, or cancels the query, and hides the operation's own code. A connector has a
-- thread that resolves the host on demand, and new_session connects to one of the endpoints. A pool
-- has a thread that sweeps idle sessions and lets a strategy refill the vacant places by its
-- connector; clients take sessions from the front and return them to the back.
--
-- The files:
-- Common.antt: numbers, integers, lists and tests that the parts share.
-- ErrorCode.antt: the error codes, and the result of a function that may throw.
-- Clock.antt: durations and time points, which are signed 64-bit counts of nanoseconds.
-- Timed.antt: detail/timed_base.hpp. Timed/Defs: expiration, scope_expire, post_deadline and
--   check_deadline. Timed/Operation: the loop over run_one() that all operations share.
--   Timed/Deadline, Timed/Completion and Timed/Limits: lemmas on the timer's handler, on the end
--   of the loop, on the limits that are accepted, and Timed/Fires on when they fire.
-- Socket.antt: stream/base_socket.hpp (Socket/Defs, Socket/Connect), stream/stream_socket.hpp
--   (Socket/Stream, Socket/Timeouts, Socket/Runs for sequences of calls, Socket/Attempts and
--   Socket/Retry for try_again, Socket/Close, Socket/Async for the asynchronous operations) and
--   stream/dgram_socket.hpp (Socket/Dgram), with their impl/ files.
-- Ssl.antt: stream/ssl_stream_socket.hpp with its impl/ file. Ssl/Connect: the constructor over a
--   connected socket; Ssl/Engine and Ssl/Deadline: a TLS stream that drives the socket below;
--   Ssl/Layers and Ssl/Aliases: what is passed on to other methods.
-- Resolver.antt: resolver/resolver.hpp with its impl/ file.
-- Connector.antt: connector/connector.hpp with its impl/ file. Connector/Calls: the overloads that
--   compute their deadline. Connector/Dialing: connect_until over the constructor of base_socket.
--   Connector/Lookups: resolve_routine over the resolver's resolve. Connector/Recovery: what
--   follows a call of new_session that connects to no endpoint. Connector/System: the resolving
--   thread and any number of calls of new_session as threads, a step for each critical section;
--   Requests, Origins, Interleaved, Threads and Progress of Connector/ prove about all their
--   interleavings, Interleaved (by Waits and Past) and Threads (by Rounds) that the functions of
--   Connector/Defs stand for what one thread does among the others.
-- Strategy.antt: connector/pool_strategy.hpp with its impl/ file.
-- Pool.antt: connector/connection_pool.hpp with its impl/ file, over any strategy (the record
--   PoolStrategy of Pool/Watch, which Pool/Strategies fills for both of them). Pool/Defs has the
--   operations, Pool/Calls the overloads that compute their deadline, Pool/Watch the watcher.
--   Pool/Queue is an abstract queue that may lose sessions, Pool/Refines relates the operations to
--   it; Pool/Order and Pool/Cycles are about many rounds of the watcher, and Pool/Connected and
--   Pool/Sockets about the pool with its connector, and with sockets in use.
-- Http.antt: stream/http_socket.hpp with its impl/ file. Http/Wire: perform over the stream socket
--   of Socket/Stream; Http/Secure: perform over the TLS socket, which drives a stream socket.
-- Allocator.antt: stream/detail/static_allocator.hpp.
-- Logger.antt: logger.hpp and impl/logger.ipp.
-- The operations keep the names of the source; where two classes share a name, the file tells them
-- apart.
--
-- How the code is modelled. A method is a function from the object's record to the record after it
-- and its result; an error code that a method sets is part of the result. A loop over run_one() reads
-- a list of events, each the timer's handler or a completion, and ends in `blocks` where the list
-- ends before the operation. What asio, beast, OpenSSL, the clock and the random generator give is
-- an argument, with the documented behaviour that a theorem relies on as its hypothesis: an infinite
-- wait of the timer is never over (NeverDue). Threads: what holds a mutex is one step, and what other
-- threads do between two such steps of an operation is a list of actions, so that a theorem holds for
-- every interleaving of them. The threads of a strategy are numbered in the order in which they end.
-- Loops that wait (on a condition variable, of the watcher, of the resolving thread) run over a list
-- of wakes or rounds; the loops of the HTTP socket run on fuel, and enough of it is given by the
-- bytes of the request and the limits of the parser. 64-bit sizes and delays keep their wrap-around.
--
-- What is not modelled: the bytes that are transferred (only their number is), printing, socket
-- options' values, template plumbing, move constructors of the sockets, the examples and the tests.
-- The listings of bytes, headers and the DNS belong to asio and beast.
pub mod Common
pub mod ErrorCode
pub mod Clock
pub mod Timed
pub mod Socket
pub mod Strategy
pub mod Pool
pub mod Connector
pub mod Ssl
pub mod Allocator
pub mod Resolver
pub mod Logger
pub mod Http
