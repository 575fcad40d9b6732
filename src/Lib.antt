-- ===== src/Lib.antt =====
-- Verification of MahinaOS: the init system src/luna-init and the display server src/lgp-compositor.
--
-- The init system reads service files into a table, orders the services by their `after` and `before`
-- lists, and lets a supervisor start, watch, restart and stop them. The display server accepts clients
-- on a socket, negotiates capabilities with each of them, and keeps a table of surfaces that the clients
-- create, fill with shared buffers and destroy.
--
-- Files, and the code that each is about:
--   Prelude: shared names, Boolean tests, lists under native indices, integers and C strings.
--   Init/Service: service_t of src/luna-init/service.h, and service_find, service_find_by_pid
--     and the parsers of single words of service.c.
--   Init/Toml: src/luna-init/toml.c. Text, Values, Line, Load and Lookup are the parser. Steps, Quotes
--     and Safe show that it reads inside its strings, Valid, Tables and Bounded what bounds a document;
--     Print writes a configuration, and Strings, ReadValue, Tidy, ReadLine and RoundTrip read it back.
--   Init/Loader: service_load_one and service_load_all of service.c. Arrays is about one service, Table
--     about the table, and Start about what depgraph_build makes of it.
--   Init/Depgraph: depgraph_topo_sort and depgraph_has_cycle of src/luna-init/depgraph.c. Its children
--     Kahn, Start and Topo hold the invariant of Kahn's algorithm, its beginning and its result.
--   Init/Depgraph/Build: depgraph_build. Its children Grown and Loops follow its loops, Spec says what
--     the lists ask of an order, Order relates that to the graph, and Correct puts it together.
--   Init/Supervisor: supervisor_signal_ready, supervisor_check_ready, spawn_service, supervisor_pump,
--     supervisor_is_boot_complete and supervisor_start_all of src/luna-init/supervisor.c. Moves, Pump,
--     Turn and Saturate are about the pump, Boot about the completion of the boot, Exit and Ends model
--     reaper_on_exit, Child and Privileges the process between fork and execve, Reap
--     reaper_reap_all of reaper.c, Stop supervisor_stop_one and StartOne supervisor_start_one.
--   Lgp/Client: lgp_client_t of src/lgp-compositor/ipc/client.h and the masks of protocol/caps.h.
--   Lgp/Wire: protocol/tlv.c; Lgp/Messages: protocol/surface.c and protocol/wm.c; Lgp/Hello:
--     protocol/hello.c and protocol/caps.c. Their children hold the theorems.
--   Lgp/Surface: scene/surface.c without the drawing. Valid says what a valid table is, Ops and Commits
--     how each request ends, Steps what every sequence of requests keeps, Guard who may change what,
--     and Mappings where the mappings go.
--   Lgp/Scene: the drawing of scene/surface.c; Clip and Safe are about its
--     accesses, Loops, Pixels, Picture and Painted about the pixels that it leaves.
--   Lgp/Mouse: the pointer of src/lgp-compositor/input/mouse.c.
-- The modules Tests run the code on small inputs.
--
-- How the code is modelled. Global tables are arguments and results. An array with its count is a list.
-- Pointers into a table are indices. What a function asks of the kernel is an argument: the record Env
-- holds the answers that one pump gets, `polls` those of the loop that waits for a process, `mapped` the
-- result of mmap, `written` that of a write. Descriptors closed and mappings given back are lists of
-- effects, and signals sent are a list. The parser has an outcome for a read past the end of a string. Log output is left out, and so are the tests for null pointers
-- that no caller passes.
--
-- Numbers. uint32_t and size_t values are natural numbers with the wrap-around written out where the
-- code can reach it: the decrement of an in-degree, the length of a payload, four times a width, stride
-- times height, and the next surface id. Times are unbounded integers: a 64-bit count of milliseconds
-- does not overflow in practice. restart_count is unbounded as well.
--
-- Fuel. The work-list loops get one round for each service, since a service enters the queue only when
-- its in-degree falls to 0, which happens once.
-- The loop of supervisor_stop_one runs until the clock passes the timeout: any fuel above a round in
-- which it has passed is enough.
--
-- Lgp/Session models src/lgp-compositor/main.c and ipc/client.c. Session has `State`
-- (lgp_compositor_state_t, less the descriptors of epoll and signals). Session/Windows has the handlers
-- of a client's own windows, Session/Manage those of the window manager, and Session/Message the
-- handshake, the clipboard and handle_message (lgp_handle_client_message); a handler gives the state, its
-- result and what it did, in order. Session/Buffer has the clients: their creation, the read of a socket
-- (read_available is lgp_client_read_available, by what recvmsg answers), the queue of descriptors, and
-- close_client. Session/Loop has the loop over the buffer (process, on fuel; one more than the bytes
-- that are buffered is enough, since every message has a header) and the event of a client in main.
-- Session/Routes has the dispatchers of the pointer and of the keys. A client is named by its
-- descriptor, which the kernel gives to one connection at a time. What the writes, mmap, the composition
-- and the page flip answer is an argument. Sums of coordinates are of unbounded integers there: an int
-- that overflows is undefined in C.
--
-- Lgp/Input models the raw mouse and keyboard of src/lgp-compositor/input/input.c, which call the
-- dispatchers of Lgp/Session; the packets and the events are what read returns.
--
-- Not modelled: the cgroup files, the probes
-- behind READY_FILE, READY_SOCKET and READY_HTTP (answers of the environment), the control socket,
-- mounts, signals and logging of the init system; the startup of main.c, the branch of input.c for libinput
-- and the DRM output of the display server; the package manager, the daemons and the applications in Rust.
pub mod Prelude
pub mod Init
pub mod Lgp
