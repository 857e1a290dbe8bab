-- ===== src/Lib.antt =====
-- The Rust implementation of the Wayland wire protocol in wayland-backend: messages and their
-- bytes, the object map, the buffered socket, and the client's and the server's backend over them;
-- and of wayland-client the event queues and the list of globals.
--
-- Protocol (wayland-backend/src/protocol.rs, core_interfaces.rs) has arguments, messages,
-- interfaces and WEnum. A `&'static Interface` is a reference that a table of statics resolves,
-- since interfaces point at one another. Wire (rs/wire.rs) writes messages to buffers and parses
-- them; a mutable slice is what has been written and what is free, and the byte order of the
-- machine is a parameter. Map (rs/map.rs) is the store of objects by id. Socket (rs/socket.rs) is
-- BufferedSocket and Buffer; the system calls are the parameter Kernel, and IsStream says what
-- sendmsg(2) and recvmsg(2) document. Client (rs/client_impl/mod.rs) is the state behind the mutex
-- of a connection: State has it and the operations that share it, Request is send_request, Display
-- handles the events of wl_display, Dispatch is the loop of dispatch_events, and Guards is the
-- agreement of several threads on one reader: a step relation over threads, in which the condvar
-- counts the calls of notify_all and a thread that waits sleeps until the count has changed or it
-- wakes up spuriously. Server (rs/server_impl/mod.rs and ClientStore of rs/server_impl/client.rs)
-- has the server's ids and its store of clients, and Server/Registry (rs/server_impl/registry.rs)
-- the globals and their announcement. Both use a client through the record Peer, which client_peer
-- of Server/Sending fills.
--
-- Server/Client has the Client of rs/server_impl/client.rs and its objects, Server/Sending the
-- events and the errors that it is sent, Server/Requests the loop that reads a request,
-- Server/Conversion the check of its arguments (process_request), and Server/Handlers the requests
-- of wl_display and wl_registry. Server/Display is the State of rs/server_impl/handle.rs with the
-- operations of its handle, and Server/Dispatch the loop of rs/server_impl/common_poll.rs that
-- handles what a client has sent. What the machine and the program around the server give
-- (statics, byte order, system calls, format!) is the record Host, and the callbacks of the
-- program are the record Callbacks.
--
-- Queue is the EventQueueInner of wayland-client/src/event_queue.rs, with the guards that freeze
-- it and the two ways to dispatch it, and Globals the list of globals of
-- wayland-client/src/globals.rs, which hands its messages to a queue.
--
-- Numbers are natural numbers. u32, u16 and usize values wrap where the code can wrap them, in a
-- release build. An operation that may panic is a function of the state into Outcome; what a panic
-- leaves behind is not described. The loops that read and dispatch take fuel, one unit for each
-- turn, and yield none when that runs out.
--
-- In Client, callbacks are a parameter: `event` gives what the callback, and other threads while
-- the lock is free, make of the state. Calls of `destroyed` are made under the lock and are
-- collected in a list. Not modelled are printing and logging, the C library backend, the
-- credentials of a client, and the rest of the crates above wayland-backend. Examples has runs of
-- the code, and the theorems applied to them.
pub mod Common
pub mod Protocol
pub mod Io
pub mod Wire
pub mod Map
pub mod Server
pub mod Socket
pub mod Client
pub mod Queue
pub mod Globals
pub mod Examples
