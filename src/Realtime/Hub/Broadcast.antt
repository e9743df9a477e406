-- ===== src/Realtime/Hub/Broadcast.antt =====
-- One broken connection does not keep an event from the others.
use mini_company.Prelude.{
  ℕ, ◌≡◌, refl, ap, sym, ◌∙◌, inl, inr, Bool, not, ◌&&◌, ◌||◌, List, [], ◌∷◌, ◌++◌, map, keep, ◌==◌,
  if◌then◌else◌, append_assoc, append-nil, Bool-cases, arith,
}
use mini_company.Realtime.Schemas.{OfficeEvent}
use mini_company.Realtime.Hub.{
  Network, Hub, member, discard, unregister, send, send_each, broadcast,
}

-- The event reaches a socket.
abbrev pub is_reached : Network → ℕ → Bool
is_reached network s = network.is_connected s && network.goes_through s

member-discard :
    (s k : ℕ) (sockets : List ℕ) → member s (discard k sockets) ≡ (member s sockets && not (k == s))
member-discard s k [] = refl
member-discard s k (c ∷ sockets) = ground (arith, member-discard s k sockets)

module _ (network : Network) (event : OfficeEvent) where
  send-member :
      (k s : ℕ) (hub : Hub)
      → member s (send network event k hub).connections
        ≡ (member s hub.connections && (is_reached network s || not (k == s)))
  unfolding send unregister
  send-member k s hub = ground (arith, member-discard s k hub.connections)

  send_each-member :
      (s : ℕ) (sockets : List ℕ) (hub : Hub)
      → member s (send_each network event sockets hub).connections
        ≡ (member s hub.connections && (is_reached network s || not (member s sockets)))
  unfolding send_each
  send_each-member s [] hub = ground arith
  send_each-member s (k ∷ sockets) hub =
      ground (arith, send-member k s hub, send_each-member s sockets (send network event k hub))

  send-sent :
      (k : ℕ) (hub : Hub)
      → (send network event k hub).sent
        ≡ hub.sent ++ (if is_reached network k then (k, event) ∷ [] else [])
  unfolding send unregister
  send-sent k hub = ground (arith, append-nil hub.sent)

  send_each-sent :
      (sockets : List ℕ) (hub : Hub)
      → (send_each network event sockets hub).sent
        ≡ hub.sent ++ map (λ s. (s, event)) (keep (is_reached network) sockets)
  unfolding send_each
  send_each-sent [] hub = sym (append-nil hub.sent)
  send_each-sent (k ∷ sockets) hub = elim (Bool-cases (is_reached network k)) [
    | inl reached ↦ rw reached (
        send_each-sent sockets (send network event k hub)
        ∙ ap (λ t. t ++ map (λ s. (s, event)) (keep (is_reached network) sockets))
            (send-sent k hub ∙ rw reached refl)
        ∙ append_assoc hub.sent ((k, event) ∷ []) _)
    | inr broken ↦ rw broken (
        send_each-sent sockets (send network event k hub)
        ∙ ap (λ t. t ++ map (λ s. (s, event)) (keep (is_reached network) sockets))
            (send-sent k hub ∙ rw broken (append-nil hub.sent)))
  ]

  -- Whatever clients are gone or fail, a broadcast sends the event to every connection that is up,
  -- once and in order, and to no other, and exactly the connections that it reached remain.
  pub broadcast_lem :
      (hub : Hub)
      → ((broadcast network event hub).sent
          ≡ hub.sent ++ map (λ s. (s, event)) (keep (is_reached network) hub.connections))
        × ((s : ℕ)
            → member s (broadcast network event hub).connections
              ≡ (member s hub.connections && is_reached network s))
  unfolding broadcast
  broadcast_lem hub = (
    send_each-sent hub.connections hub,
    λ s. ground (arith, send_each-member s hub.connections hub),
  )
