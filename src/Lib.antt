-- ===== src/Lib.antt =====
-- A model of hound, a C++ library for HTTP servers: sockets, addresses and buffers, an incremental
-- HTTP parser, a router, the server's connections, the event loop with its timer wheel and poller,
-- the pool of loops, and the coroutines with their waiting calls.
--
-- The parts and how they interact. A connection of the server (http_server.cpp) reads from its
-- socket into a buffer (buffer.cpp), lets the parser (http_parser.cpp) consume requests
-- (http_request.h) from it, asks the router (router.cpp) for a handler, and hands the text of the
-- response (http_response.cpp) to its socket. Its timeout is a timer of the event loop's wheel
-- (timer_wheel.cpp). The loop's poller (select_poller.cpp) finds the channels (channel.cpp) whose
-- descriptors are ready; the loop (event_loop.cpp) runs them, the timers and the tasks that other
-- threads queue. A pool (thread_pool.cpp) has one loop for each thread. Coroutines wait for
-- descriptors in their scheduler (scheduler.cpp), where a call would block (hook.cpp).
--
-- The files, each with the code that it models, below hound/src:
--   Prelude       natural numbers, lists, texts as lists of byte codes, maps as association lists
--   Io/Buffer     io/buffer.h, io/buffer.cpp: append, begin_write, has_written, ensure_writable,
--                 peek, peek_byte, retrieve (skip, skip_last, compact), retrieve_all, read_n, find
--   Io/Socket     io/socket.h, io/socket.cpp for POSIX: Owners is who owns which descriptor, Calls
--                 what read, write, readv and writev report
--   Io/Address    io/address.h, io/address.cpp: parse, resolve, port, ip, to_string
--   Util/Result   util/result.h, and the codes of errno
--   Http/Request  http/http_request.h, http/http_request.cpp
--   Http/Parser   http/http_parser.h, http/http_parser.cpp: parse with a handler for each state;
--                 Number is strtoul of the C library for the bases 10 and 16, Chunks the body in
--                 chunks
--   Http/Response http/http_response.h, http/http_response.cpp
--   Http/Router   http/router.h, http/router.cpp: add and route on the trie
--   Http/Server   http/http_server.cpp: on_accept, on_message, on_close, handle_request,
--                 send_response and refresh_timeout of one connection
--   Http/Server/Connections  http/http_server.cpp: the map of the connections, stop, and the
--                 deletions that on_close queues
--   Http/Server/Listening  http_server.cpp: the listening socket and its channel in start and stop;
--                 Started is what start leaves, Restored what stop does
--   Http/Server/Routes  http_server.h: get, post, put, del, set_static_dir
--   Reactor/TimerWheel  reactor/timer_wheel.cpp: add_timer, add_repeating, cancel, tick,
--                 next_timeout_ms
--   Reactor/Poller      reactor/channel.cpp, reactor/select_poller.cpp
--   Reactor/EventLoop   reactor/event_loop.cpp: queue_in_loop, run_in_loop, do_pending_tasks, loop,
--                 quit and the delegates; System is the loop among other threads, step by step,
--                 with the calls that are under way in Calls; Tasks is what a turn of loop does;
--                 Lifetime is the constructor and the destructor
--   Reactor/ThreadPool  reactor/thread_pool.cpp: start, the workers, get_next_loop
--   Coro/Hook           coro/hook.cpp: co_read, co_write, co_accept, co_connect, co_sleep
--   Coro/Coroutine      coro/coroutine.cpp and coro/context.cpp for POSIX: resume, yield and
--                 entry_point over saved contexts; Straight compares a function that yields with
--                 one that does not
--   Coro/Scheduler      coro/scheduler.cpp: Waiting and Watching are the descriptors that
--                 coroutines wait for, Ready the thread between the turns of tick, Queue the
--                 turns
-- and below hound/examples:
--   Examples/EchoServer echo_server_reactor.cpp: its connections from accept to deletion
-- The definitions carry the names of the functions. A field `x_` of a class is the field `x` of a
-- record. A method that changes its object takes the record last and returns it, with the method's
-- result in front where it has one. Where a method walks raw pointers, the model walks lists: a
-- buffer's blocks are split at its two pointers.
--
-- Bounds and fuel. Sizes are natural numbers: buffers do not come near 2^64 bytes. A chunk's size
-- comes from the input, so its arithmetic is modulo 2^64. The loop of `parse` has the buffer's size
-- and one more as its fuel, since a turn that goes on consumes a byte. The loop of the server over
-- a buffer takes two turns at most for each byte and two more. The loops of the timer wheel and of
-- the scheduler run callbacks, which may keep them going for ever: they run on fuel that the
-- caller chooses, and give no result where it is used up.
--
-- Parameters. The order of an unordered map, the system's answer to a write, the file system,
-- what select reports, what the system calls give, the timers' callbacks, the tasks of the loop,
-- the handlers and the functions that coroutines run are not code of the library: they are arguments.
--
-- Not modelled: the threads themselves; the content of the descriptor that wakes a loop, which is
-- a flag; the options of sockets and what is compiled for Windows only; the stacks of coroutines;
-- and logging. A call of co_read, co_write or co_accept is taken to come from a coroutine where the
-- thread's scheduler is current: without one, yield would end the program. A chunk's size is read
-- from the text that the buffer shows: strtoul might read on behind it where the line of the size
-- holds white space only. Running out of memory ends the program and is left out. A timer's delay is taken to
-- be below 2^31 cycles of the wheel, where its rounds fit an int.
pub mod Prelude
pub mod Util
pub mod Io
pub mod Http
pub mod Reactor
pub mod Coro
pub mod Examples
