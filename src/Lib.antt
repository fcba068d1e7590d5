-- ===== src/Lib.antt =====
-- Verification library of the ant-http server (antd), a web server in C.
--
-- Parts and files. `Prelude` holds shared numbers, lists, integers and texts. `Bst` is lib/bst.c,
-- the search tree of the scheduler. `Scheduler` is lib/scheduler.c: its state, task ids and
-- queues; `Scheduler.Execute` runs a task and its callbacks, `Scheduler.Wait` is one round of the
-- event loop, and their children hold the theorems; `Scheduler.Threads` are the steps of threads
-- that share it, one lock at a time. `Dictionary` is lib/dictionary.c. `Utils` is lib/utils.c by
-- families of functions. `Handle` is lib/handle.c: reads and writes of a connection, whose
-- children follow the bytes; `Handle.Response` are its headers and error pages. `Ws` is lib/ws.c:
-- frames over such a connection. `Request` holds the request and the tasks that its handlers
-- return. `Decode` is decode.c: header lines, queries and cookies, rewriting rules, proxies, and
-- bodies; `Decode.Parts` are the parts of multi-part bodies. `Plugins` is plugin_manager.c, the
-- table of loaded plugins. `Config` is config.c, the settings that all parts use. `Server` is
-- server.c: `Server.Accept`, `Server.Resolve`, `Server.Files` and `Server.Proxify` are its
-- handlers, and `Server.Order` is how all handlers follow one another: each returns a task, and
-- the scheduler runs the handle of that task.
--
-- Correspondence. A function has the name of the C function; `__b` is `send_bytes`,
-- `_send_header` is `send_header`, `ws_ping` is `ws_send_ping`. A struct is a record, a pointer
-- that may be NULL an `Option`, a linked list a list. A C string is the list of its bytes without
-- the NUL. Handlers of tasks, the clock and `poll` are arguments, and what the calls on a socket
-- return is a list in the connection, for plain and for TLS sockets. A handler `f` is `f_run`:
-- from the request it gives the next task, or a fatal call. Regular expressions, the file system,
-- libraries and what their functions do, what the ini parser reads, sockets to other servers and
-- the digest of a web socket key are arguments; so is, for the request handlers, what
-- `antd_plugin_load` gives. A C `int` is an unbounded integer unless a conversion is written out.
--
-- Fuel. The loop of `antd_scheduler_next_id` runs on one round more than the tree can hold ids.
-- The loops of reads and writes run on the bytes that are wanted and the answers of the socket
-- together: each round takes one of either. `guard_read`, `guard_write` and `__b` run on the
-- bytes alone: each round takes some, or ends the loop. The loop over header lines runs on 8194
-- rounds: each takes a byte, and above 8192 bytes it stops. The loops over the lines of a
-- multi-part body run on the bytes to come. The body of a form is read on its size and the
-- answers of the socket. The loop of `proxy_monitor` runs on the bytes of both connections, since
-- each round but the last takes one. The loop over the tags of a rule runs on the length of the
-- rule, since each match takes some. All other loops are structural.
--
-- Not modelled: the release of a request and of the settings, the linked list (lib/list.c), the
-- statistics thread, compression, the set-up of sockets, threads and TLS, directories that are
-- made or emptied, and the copies of other libraries (lib/base64.c, lib/sha1.c, lib/ini.c).
pub mod Bst
pub mod Config
pub mod Decode
pub mod Dictionary
pub mod Handle
pub mod Plugins
pub mod Prelude
pub mod Request
pub mod Scheduler
pub mod Server
pub mod Utils
pub mod Ws
mod Tests
