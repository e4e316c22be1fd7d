-- ===== src/Http.antt =====
-- server/http_server.go, internal/http_handler and pkg/serializer.go: a response as net/http keeps it, the
-- middlewares and the server that runs a handler, and the handler of /empty.
pub mod Writer
pub mod Middleware
pub mod Server
pub mod Empty
mod Examples
