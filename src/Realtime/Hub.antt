-- ===== src/Realtime/Hub.antt =====
-- backend/src/realtime/hub.py: `class ConnectionHub`. A socket is a number; whether its client is
-- connected and whether sending to it goes through is the network's, and a parameter.
pub mod Broadcast
use mini_company.Prelude.{
  ℕ, Bool, true, false, not, List, [], ◌∷◌, ◌++◌, any, keep, length, ◌==◌, if◌then◌else◌,
}
use mini_company.Realtime.Schemas.{OfficeEvent}

pub record Network : Type 0 where
  pub is_connected : ℕ → Bool
  pub goes_through : ℕ → Bool

-- The set of connections, and what was sent over them, in order.
pub record Hub : Type 0 where
  pub connections : List ℕ
  pub sent : List (ℕ × OfficeEvent)

-- `websocket in self._connections`
abbrev pub member : ℕ → List ℕ → Bool
member s sockets = any (λ c. c == s) sockets

-- `discard`
abbrev pub discard : ℕ → List ℕ → List ℕ
discard s sockets = keep (λ c. not (c == s)) sockets

-- `register`
unfoldable pub register : ℕ → Hub → Hub
register s hub = record hub {
  connections = if member s hub.connections then hub.connections else hub.connections ++ s ∷ [];
}

-- `unregister`
unfoldable pub unregister : ℕ → Hub → Hub
unregister s hub = record hub { connections = discard s hub.connections }

-- `connection_count`
unfoldable pub connection_count : Hub → ℕ
connection_count hub = length hub.connections

-- `_send`
unfoldable pub send : Network → OfficeEvent → ℕ → Hub → Hub
unfolding unregister
send network event s hub =
    if not (network.is_connected s)
    then unregister s hub
    else if network.goes_through s
    then record hub { sent = hub.sent ++ (s, event) ∷ [] }
    else unregister s hub

-- The loop of `broadcast` over a copy of the connections.
unfoldable pub send_each : Network → OfficeEvent → List ℕ → Hub → Hub
unfolding send
send_each network event [] hub = hub
send_each network event (s ∷ sockets) hub =
    send_each network event sockets (send network event s hub)

-- `broadcast`
unfoldable pub broadcast : Network → OfficeEvent → Hub → Hub
unfolding send_each
broadcast network event hub = send_each network event hub.connections hub

-- `close_all`: what closing a socket raises is dropped.
unfoldable pub close_all : Hub → Hub
close_all hub = record hub { connections = [] }
