-- ===== src/Server.antt =====
-- server.c: the handlers of a request.
pub mod Accept
pub mod Resolve
pub mod Files
pub mod Proxify
pub mod Order
