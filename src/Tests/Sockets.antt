-- ===== src/Tests/Sockets.antt =====
-- An event sent to three connections, one of which is broken.
use mini_company.Prelude.{ℕ, ◌≡◌, refl, true, not, ◌&&◌, none, [], ◌∷◌, ◌++◌, map, keep, ◌==◌}
use mini_company.Employees.Domain.{idle}
use mini_company.Realtime.Schemas.{OfficeEvent, employee_status_changed}
use mini_company.Realtime.Hub.{Network, Hub, member, broadcast}
use mini_company.Realtime.Hub.Broadcast.{broadcast_lem, is_reached}

abbrev network : Network
network = record { is_connected = λ s. true; goes_through = λ s. not (s == 2) }

abbrev hub : Hub
hub = record { connections = 1 ∷ 2 ∷ 3 ∷ []; sent = [] }

abbrev event : OfficeEvent
event = employee_status_changed (record { employee_id = 0; status = idle; current_task_id = none })

broadcast_lem_example :
    ((broadcast network event hub).sent
      ≡ hub.sent ++ map (λ s. (s, event)) (keep (is_reached network) hub.connections))
    × ((s : ℕ)
        → member s (broadcast network event hub).connections
          ≡ (member s hub.connections && is_reached network s))
broadcast_lem_example = broadcast_lem network event hub

two_left : (broadcast network event hub).connections ≡ 1 ∷ 3 ∷ []
unfolding broadcast
two_left = refl
