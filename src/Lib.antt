-- ===== src/Lib.antt =====
-- niubix, a layer-7 reverse proxy in C++. An acceptor hands each connection to a worker thread; the
-- worker's `evpoll` dispatches the events of its descriptors, its `timer_qheap` holds the timeouts
-- and repeated checks, and a `ringq` holds the tasks handed to it and the data that a socket has not
-- yet taken. A frontend connection parses requests and asks its `app` for a backend, which the app
-- chooses by smooth weighted round robin among the backends that health checks and the
-- administrator leave in service.
--
-- Which file models which part (paths are from the repository's root):
--
-- Base and its children: names, Boolean tests, lists under native indices and signed integers.
--
-- Ringq (src/ringq.h): the template's members are the record `Ringq`; `push_back`, `pop_front`,
--   `front`, `grow`, `empty` and `full` keep their names. The item type is a parameter with
--   `blank`, the value that a new slot holds. `Ringq.Inv` has the well-formedness of a ring,
--   `Ringq.Refine` the items it holds as a list, and `Ringq.Run` histories of calls.
--
-- App (src/app.h, src/app.cpp): `app::backend` is the record `Backend`, and the mutex makes each
--   operation one step: `backend_online`, `backend_offline`, `set_backend_down`,
--   `set_backend_weight` and `get_backend_by_smooth_wrr`, whose loop is `wrr_loop`. `App.Pass` and
--   `App.Choice` describe one selection, `App.Total` and `App.Balanced` what it keeps,
--   `App.Fair`, `App.Bounds` and `App.Cycle` sequences of selections, `App.Health` the checks and
--   `App.Hosts` the administrator's setters.
--
-- Timer (src/timer_qheap.h, src/timer_qheap.cpp): the heap is a list of pointers into a store of
--   items, which handlers share through `ti`. `schedule`, `cancel`, `pop_min`, `handle_expired`,
--   `on_read` and `adjust_timerfd` keep their names, `shift_up` and `shift_down` have their loops as
--   `up_loop` and `down_loop`. A handler's `on_timeout` is a parameter. `Timer.Array` and
--   `Timer.Heap` have the lemmas on the array and the heap order, `Timer.Ops` the operations,
--   `Timer.Due` and `Timer.Expire` the loop over due items, and `Timer.Cancel` what cancelling does.
--
-- Parser (src/http_parser.h, src/http_parser.cpp): `http_parser` is the record `Parser`, whose
--   pointers are indices into the buffer. `Parser.RequestLine`, `Parser.HeaderLine`,
--   `Parser.Chunked` and `Parser.Uri` have `parse_request_line`, `parse_header_line`,
--   `parse_chunked` and `parse_uri`, each with its `switch` as a step by state and character and its
--   `for` as a loop over the characters; `Print` and `Size` are about well-formed input, `Bounds`
--   about every input, and `Resume` about a second call.
--
-- Decode (src/http.cpp): `url_decode` with its loop `url_loop`, and `htoi`. `Decode.Inplace` compares
--   it with decoding into a new string, `Decode.Encode` with encoding.
--
-- Wakeup (src/worker.h, src/worker.cpp): `worker_wakeup`, the eventfd by which a worker is woken.
--
-- IoHandle (src/io_handle.h, src/io_handle.cpp): `io_handle` over a `Ringq` of buffers. The bytes that
--   the kernel takes at each `::send` are inputs, and `wire` is what it has taken. `IoHandle.Queue`
--   has the bytes that wait, `IoHandle.Loop` the loop of `on_write`, `IoHandle.Stream` the results.
--
-- Evpoll (src/evpoll.h, src/evpoll.cpp, src/poll_desc.h): the table of descriptors with `add`,
--   `append` and `remove`, over the interface `Epoll` of the kernel's `epoll_ctl`; `Evpoll.Agree`
--   compares the table with the kernel's interest list, `Evpoll.Resume` pauses and resumes a
--   descriptor, and `Evpoll.Dispatch` is one ready event of `run`, with the handlers as parameters.
--
-- Session (src/http_frontend.cpp, src/backend.cpp, src/task_in_worker.cpp): a client connection, its
--   connection to a backend and the tasks between them, as one state; a C++ method is a function of
--   that state, with the side's name where both classes have the method. `Session.Inv` has the
--   invariant, `Session.Events` and `Session.Tasks` its steps, `Session.Reach` the step relation.
--   `Session.Open` has `on_open` and `to_connect_backend` of the frontend, by which a session begins,
--   `Session.Open.Accept` how that ends, and `Session.Reads` reads from the backend.
--
-- Request (src/http_frontend_handle_req.cpp, src/http_frontend.cpp): how a frontend reads requests.
--   `Request.State` has its members and small methods, `Request.Text` what is used of the C library on
--   strings, `Request.Filter` `filter_headers`, `Request.Complete` `a_complete_req`, and
--   `Request.Handle` `handle_data` and `handle_request` over the automata of Parser. A null host that is
--   compared and a negative length that is copied are outcomes of their own. `Request.Keeps` has what
--   stays as it is on the way; `Request.Ends`, `Request.Body`, `Request.Partial`, `Request.Rewrite` and
--   `Request.Room` are about the ends, a body in pieces, the buffer of a partial request, the changed
--   header and its array.
--
-- Config (src/app.cpp, src/app.h, src/inet_addr.h): `app::load_conf`. `Config.Addr` has `parse_ip_port`
--   and `parse_v4_addr`, `Config.Load` the values of the configuration and the loop over the backends,
--   `Config.Apps` the loop over the apps, and `Config.Good` and `Config.Valid` what holds of an accepted
--   configuration;
--   `Config.Match` has `app::match_app_by_host`. `Config.Process` (src/conf.h, src/conf.cpp) has
--   `conf::load`, and `Config.Process.Accepted` what it accepts.
--   What the JSON library gives for a key is an input.
--
-- Async (src/async_taskq.h, src/async_taskq.cpp): `async_taskq`, by which threads hand tasks to a worker.
--   `push` and `on_read` are cut into the steps between which other threads run; `Async.Order` is about
--   every interleaving of them.
--
-- Http (src/http.h, src/http.cpp): the tables `err_codes` and `err_msgs`, as functions of `HttpErr`, in
--   `Http.Replies`, and `get_reason` in `Http.Reason`; `Http.Framing` reads the replies as a client does.
--
-- Acceptor (src/acceptor.h, src/acceptor.cpp): a listening socket, with `open` as `open_acceptor` over the
--   results of its system calls, and the accept loop. `Acceptor.Setup` is about the one, `Acceptor.Hears`
--   about the other under events of the poller and the timer.
--
-- Connector (src/connector.cpp): `connect` and `nblock_connect` over the results of their system calls, and
--   `in_progress_connect` as the state `Pending` under the events of the poller and its timer. The
--   handler is seen by the calls that it gets. `Connector.Once` is about a connect in progress,
--   `Connector.Setup` about `connect`.
--
-- HealthCheck (src/health_check.cpp): a probe and its check as one state. Its period uses `connect` of
--   Connector and the health state of App; `HealthCheck.Verdict` is about an open probe under any events,
--   `HealthCheck.Period` about the start of one, and `HealthCheck.Pending` about its connect.
--
-- Admin (src/admin.cpp): the administrator's connection. `Admin.Query` has `parse_query_params`,
--   `Admin.Commands` the commands, which use the setters of App, and `a_complete_req`, which uses Decode
--   and Parser, and `Admin.Requests` `handle_request` and `on_read`. A command that throws is a result of
--   its own. `Admin.Reply` reads the replies as a client does; `dump` of the JSON library is a parameter.
--
-- Start (src/app.cpp): `app::run_all`, which opens the acceptors of every worker; `Start.Opened` is about
--   what is running then.
--
-- Activity (src/worker_timing_event.cpp): the check for silent and slow clients.
--
-- Numbers: sizes, indices and times are natural numbers without an upper bound, signed members are
-- integers; overflow of `int` and `int64_t` is not modelled, except for the parser's version and
-- chunk size, and `App.Bounds` says how large the running values of the selection become.
--
-- Fuel: `up_loop` gets its start index, which shrinks in every round, and `down_loop` the number of
-- slots, since its index grows in every round. `grow` copies as many items as there are slots.
-- `url_loop` gets the length of the string, of which every round takes a character.
-- `headers_loop` and `requests_loop` get one round more than there are bytes, of which each round reads
-- at least one; `Request.Ends` proves that enough, and `Admin.Requests.Ends` for the administrator's.
-- `digits` gets one round more than the number's value, and `accept_loop` the 64 rounds of the code.
-- `write_loop` gets the length of the queue, as the loop's bound in the code.
-- `handle_expired` gets fuel from its caller; one round more than items were ever allocated is enough
-- if the handlers leave the timers alone.
--
-- Not modelled: system calls, threads, logging, TLS, the copy of nlohmann/json, start-up,
-- starting and pinning the threads of the workers, periodic log lines, and the chunked branches of the
-- request handling, which are never reached.
pub mod Base
pub mod Ringq
pub mod Acceptor
pub mod Start
pub mod Activity
pub mod Admin
pub mod App
pub mod Timer
pub mod Parser
pub mod Decode
pub mod Wakeup
pub mod IoHandle
pub mod Session
pub mod Evpoll
pub mod Request
pub mod Config
pub mod Async
pub mod HealthCheck
pub mod Http
pub mod Connector
