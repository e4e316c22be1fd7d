-- ===== src/Sse.antt =====
-- cmd/sse_server/main.go and server/http_client.go: the events that the server writes and the client that
-- listens to them. A text is the list of its runes, since both cut texts at runes.
pub mod Text
pub mod Server
pub mod Client
pub mod Connection
pub mod Passes
pub mod RoundTrip
pub mod Ends
pub mod Handler
pub mod Wire
pub mod EndToEnd
mod Examples
