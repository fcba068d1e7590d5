-- ===== src/Decode.antt =====
-- decode.c: cookies, queries, headers and the bodies of requests.
pub mod Tokens
pub mod Params
pub mod Rules
pub mod Proxy
pub mod Header
pub mod Body
pub mod Parts
