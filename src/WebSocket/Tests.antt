-- ===== src/WebSocket/Tests.antt =====
-- The registry on two sockets (app/services/websocket_manager.py).
use welogical_vehicle_tracki.Common.{◌≡◌, refl, Bool, [], ◌∷◌, ◌==◌, count_if, if◌then◌else◌, none}
use welogical_vehicle_tracki.WebSocket.{
  Socket, Connections, topics_of, subscribe, unsubscribe, heartbeat, broadcast,
}
use welogical_vehicle_tracki.WebSocket.Laws.{IsRegistry}
use welogical_vehicle_tracki.WebSocket.Broadcast.{
  receives, once, broadcast-once, unsubscribe-subscribe, heartbeat-alive,
}

abbrev pair : Connections
pair = (1, "telemetry" ∷ []) ∷ (2, "fleet" ∷ "events" ∷ []) ∷ []

abbrev odd : Socket → Bool
odd ws = ws == 1

pair-IsRegistry : IsRegistry pair
pair-IsRegistry = (refl, (refl, tt), (refl, (refl, (refl, tt)), tt))

broadcast-once_example :
    count_if (λ w. w == 2) (broadcast "telemetry" pair)
    ≡ once (receives "telemetry" (topics_of 2 pair))
broadcast-once_example = broadcast-once "telemetry" 2 pair pair-IsRegistry

broadcast_to_both : broadcast "telemetry" pair ≡ 1 ∷ 2 ∷ []
unfolding broadcast
broadcast_to_both = refl

unsubscribe-subscribe_example : unsubscribe 1 "events" (subscribe 1 "events" pair) ≡ pair
unsubscribe-subscribe_example = unsubscribe-subscribe 1 "events" pair refl

heartbeat-alive_example :
    topics_of 2 (heartbeat odd pair) ≡ (if odd 2 then topics_of 2 pair else none)
heartbeat-alive_example = heartbeat-alive odd 2 pair pair-IsRegistry
