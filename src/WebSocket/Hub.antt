-- ===== src/WebSocket/Hub.antt =====
-- server/websocket_server.go: `Hub`. A client is the number of its connection, and the map is the list of
-- its keys in the order in which a loop over it finds them. The mutex makes each operation one step.
pub mod Members
use service_template.Base.{ℕ, ◌==◌, Bool, true, false, ◌||◌, List, [], ◌∷◌, if◌then◌else◌}

-- `_, ok := h.clients[client]`
unfoldable pub has_client : ℕ → List ℕ → Bool
has_client c [] = false
has_client c (d ∷ clients) = (d == c) || has_client c clients

-- The built-in `delete`.
unfoldable pub delete_client : ℕ → List ℕ → List ℕ
delete_client c [] = []
delete_client c (d ∷ clients) =
    let rest = delete_client c clients in if d == c then rest else d ∷ rest

unfoldable pub new_hub : List ℕ
new_hub = []

unfoldable pub register : ℕ → List ℕ → List ℕ
register c clients = if has_client c clients then clients else c ∷ clients

unfoldable pub unregister : ℕ → List ℕ → List ℕ
unregister c clients = if has_client c clients then delete_client c clients else clients

-- `CollectGarbageConnections`, where `fails` says of which connections `Close` has an error: the clients
-- that are left and the connections that `Close` was called for, in order.
unfoldable pub collect_garbage_connections : (ℕ → Bool) → List ℕ → List ℕ × List ℕ
collect_garbage_connections fails [] = ([], [])
collect_garbage_connections fails (c ∷ clients) =
    let rest = collect_garbage_connections fails clients in
    if fails c then (c ∷ rest.0, c ∷ rest.1) else (rest.0, c ∷ rest.1)
