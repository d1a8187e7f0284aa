-- ===== src/WebSocket/Broadcast.antt =====
-- Who gets a broadcast, and what a subscription, its opposite and a heartbeat do to it
-- (app/services/websocket_manager.py).
use welogical_vehicle_tracki.Common.{
  ℕ, ◌≡◌, refl, String, Bool, true, false, not, ◌&&◌, Option, none, some, List, [], ◌∷◌, ◌++◌, ◌==◌,
  eq_iff, ==→eq, ==_refl, if◌then◌else◌, arith, count_if,
}
use welogical_vehicle_tracki.WebSocket.{
  Socket, Connections, includes, remove_topic, is_connected, topics_of, change, disconnect,
  subscribe, unsubscribe, dead_clients, disconnect_all, heartbeat, wants, broadcast,
}
use welogical_vehicle_tracki.WebSocket.Laws.{IsRegistry, disconnect-IsRegistry}

-- The socket has a subscription under which it gets a broadcast to the topic.
abbrev pub receives : String → Option (List String) → Bool
receives topic none = false
receives topic (some topics) = wants topic topics

abbrev pub once : Bool → ℕ
once true = 1
once false = 0

unconnected : (ws : Socket) (m : Connections) → is_connected ws m ≡ false → topics_of ws m ≡ none
unconnected ws [] h = refl
unconnected ws ((w, topics) ∷ m) h = ground (arith, unconnected ws m)

broadcast-absent :
    (topic : String) (ws : Socket) (m : Connections)
    → is_connected ws m ≡ false
    → count_if (λ w. w == ws) (broadcast topic m) ≡ 0
unfolding broadcast
broadcast-absent topic ws [] h = refl
broadcast-absent topic ws ((w, topics) ∷ m) h = ground (arith, broadcast-absent topic ws m)

-- A broadcast goes once to each registered socket that is subscribed to the topic, to "fleet" or to
-- "*", and to no other socket.
pub broadcast-once :
    (topic : String) (ws : Socket) (m : Connections)
    → IsRegistry m
    → count_if (λ w. w == ws) (broadcast topic m) ≡ once (receives topic (topics_of ws m))
unfolding broadcast
broadcast-once topic ws [] r = refl
broadcast-once topic ws ((w, topics) ∷ m) r =
    ground (arith, broadcast-absent topic ws m, broadcast-once topic ws m, ==→eq w ws)

abbrev pub is_subscribed : String → Option (List String) → Bool
is_subscribed topic none = false
is_subscribed topic (some topics) = includes topic topics

remove-snoc :
    (topic : String) (topics : List String)
    → includes topic topics ≡ false
    → remove_topic topic (topics ++ (topic ∷ [])) ≡ topics
remove-snoc topic [] h = ground (arith, eq_iff topic topic)
remove-snoc topic (t ∷ topics) h = ground (arith, remove-snoc topic topics)

-- A socket that is subscribed to a topic that it did not have, and unsubscribed again, leaves the
-- registry as it was.
pub unsubscribe-subscribe :
    (ws : Socket) (topic : String) (m : Connections)
    → is_subscribed topic (topics_of ws m) ≡ false
    → unsubscribe ws topic (subscribe ws topic m) ≡ m
unfolding change
unsubscribe-subscribe ws topic [] h = refl
unsubscribe-subscribe ws topic ((w, topics) ∷ m) h =
    ground (arith, remove-snoc topic topics, unsubscribe-subscribe ws topic m, ==_refl w)

topics-disconnect :
    (ws w : Socket) (m : Connections)
    → IsRegistry m
    → topics_of ws (disconnect w m) ≡ (if w == ws then none else topics_of ws m)
unfolding disconnect
topics-disconnect ws w [] r = ground arith
topics-disconnect ws w ((v, topics) ∷ m) r =
    ground (arith, topics-disconnect ws w m, unconnected ws m)

abbrev listed : Socket → List Socket → Bool
listed ws [] = false
listed ws (w ∷ dead) = let rest = listed ws dead in if w == ws then true else rest

topics-disconnect_all :
    (ws : Socket) (dead : List Socket) (m : Connections)
    → IsRegistry m
    → topics_of ws (disconnect_all dead m) ≡ (if listed ws dead then none else topics_of ws m)
unfolding disconnect_all
topics-disconnect_all ws [] m r = refl
topics-disconnect_all ws (w ∷ dead) m r = ground (
  arith,
  topics-disconnect_all ws dead (disconnect w m) (disconnect-IsRegistry w m r),
  topics-disconnect ws w m r,
)

listed-dead_clients :
    (alive : Socket → Bool) (ws : Socket) (m : Connections)
    → listed ws (dead_clients alive m) ≡ (is_connected ws m && not (alive ws))
unfolding dead_clients
listed-dead_clients alive ws [] = refl
listed-dead_clients alive ws ((w, topics) ∷ m) =
    ground (arith, listed-dead_clients alive ws m, ==→eq w ws)

-- A heartbeat drops the sockets whose ping fails, and leaves every other with its topics.
pub heartbeat-alive :
    (alive : Socket → Bool) (ws : Socket) (m : Connections)
    → IsRegistry m
    → topics_of ws (heartbeat alive m) ≡ (if alive ws then topics_of ws m else none)
unfolding heartbeat
heartbeat-alive alive ws m r = ground (
  arith,
  topics-disconnect_all ws (dead_clients alive m) m r,
  listed-dead_clients alive ws m,
  unconnected ws m,
)
