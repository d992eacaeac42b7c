-- ===== src/Lib.antt =====
-- A verification library of tinybus, the message bus of crates/tinybus: a broker routes calls,
-- replies and signals between the connections that are attached to it, by unique names (`:1.7`) that
-- it gives out itself and by well-known names that connections claim.
--
-- The parts and their files:
--   Prelude      Boolean tests, equality as a class, lists and maps over native numbers.
--   Text         `str` and `String` as lists of code points; decimal numbers and splitting.
--   Name         crates/tinybus/src/name.rs: `BusName`, `ObjectPath`, `InterfaceName`, `MemberName`,
--                with `new`, `unique`, `is_unique`, `starts_with`; the Grammar modules describe the
--                accepted texts independently of the loops.
--   Error        crates/tinybus/src/error.rs: the error type, its texts (Error.Wire) and the redaction
--                of quoted values (Error.Redact).
--   Message      crates/tinybus/src/message: headers and constructors (Types, Build), the check on
--                ingress (Validate), error replies (Reply), and the length prefix (Codec).
--   Version      crates/tinybus/src/version.rs: versions, ranges, manifests, `check`; their texts
--                in Version.Text.
--   Router       crates/tinybus/src/router.rs: the routing table and every operation that changes it
--                (Router), match rules (Router.Rule), the lookups that pick a destination
--                (Router.Resolve), and the part of crates/tinybus/src/module/host_callbacks.rs that
--                the table reads (Router.Callbacks). Router.Reach has one step for each operation.
--   Broker       crates/tinybus/src/broker.rs: `route`, as a function from the table and an inbound
--                message to what is done with it; in Broker.Bus the bus's own service, from a call to
--                its reply, the table it leaves and the announcements.
--   Service      crates/tinybus/src/service/tree.rs: the objects that a connection exports.
--   Stream       crates/tinybus/src/stream: the text of a chunk (Stream.Base64), one stream and its
--                reader (Stream.Inbound), the table of streams (Stream.Registry), and the loops of
--                the sender and of the reader (Stream.Ends). In Stream.Inbound.Delivery a step is
--                what runs between two awaits, so that writes, closes and reads interleave.
--   Connection   crates/tinybus/src/connection.rs: the calls that one connection waits for, whom each
--                expects an answer from (Connection), and any sequence of calls, replies, refusals and
--                timeouts (Connection.Calls). A `oneshot` channel is named by the serial of its call.
--   Module       crates/tinybus/src/module/lease.rs: the worker that stops a module (Module.Lease), the
--                handles that share it (Module.Lease.Shared), and the activation
--                (Module.Lease.Activate); host_callbacks.rs beside it: the life of a callback scope,
--                its declaration (Module.Callback.Declare), its steps (Module.Callback.Life), its end
--                (Module.Callback.Drained) and its part in the routing table
--                (Module.Callback.Routed).
--
-- How they interact: `Broker.route` checks a message by `Message.Validate.validate`, overwrites its
-- sender, and asks the table (Router.Resolve) for the outboxes; the table reads match rules, which
-- read paths by `ObjectPath.starts_with`, and callback scopes through the heap that stands for the
-- shared pointers (`Arc`), since the module host revokes and the router drops one object.
--
-- Conventions. Text is a list of code points, and its length is counted in UTF-8 bytes where the
-- source does so. A `Result` is a value; a panic is `none`. `u64` addition wraps around, as in a
-- release build. A `HashMap` is an association list in which no key occurs twice, an outbox is a
-- value of the parameter `Sender`, and a JSON body is a value of the parameter `Value`. Printing a
-- number takes 20 steps of fuel, which is enough for every number below 2 ^ 64; every other loop is
-- structural recursion. The module host's answer about a name is a parameter of `route`, and a
-- control call that the host runs is one of `bus_method`: it may never come back, and the table that
-- the broker finds then is any, as other connections go on meanwhile. Between any other method of the
-- bus and its reply nothing else happens to the table. The bus's answer to
-- `ResolveCallTarget` is a parameter of a call, and what the driver of a lease, the clock and the
-- tasks do one of the lease's functions; a wait that never ends is a worker that has not returned.
-- `usize` has 64 bits.
--
-- Not modelled: the tasks that read and write connections, the handling of inbound calls, the end of
-- a stream on the sender's side, the descendants of a callback scope, events and secrets; module
-- loading, transports, the command line, the macros and the SDK for modules, which are files,
-- sockets, foreign calls or generated code; and the JSON encoding, which is another library's.
pub mod Prelude
pub mod Text
pub mod Name
pub mod Error
pub mod Message
pub mod Version
pub mod Router
pub mod Broker
pub mod Service
pub mod Connection
pub mod Module
pub mod Stream
