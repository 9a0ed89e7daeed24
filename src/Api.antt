-- ===== src/Api.antt =====
-- The client side of the HTTP interface: failures, idempotency keys, the access token, streams.
pub mod Http
pub mod Idempotency
pub mod Sse
pub mod Client
pub mod Stream
pub mod Errors
