-- ===== src/WebSocket.antt =====
-- server/websocket_server.go, internal/websocket_handler, server/websocket_clent.go and
-- internal/websocket_client: the hub of the connections, the pumps that write to them, the loop that reads
-- from one, and the client. What gorilla/websocket answers to each call is given with the call.
pub mod Hub
pub mod Pump
pub mod Router
pub mod Handler
pub mod Client
pub mod Dial
pub mod UserInput
mod Examples
