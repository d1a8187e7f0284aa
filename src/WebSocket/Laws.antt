-- ===== src/WebSocket/Laws.antt =====
-- The registry of sockets (app/services/websocket_manager.py): each socket is registered once with
-- each topic once, whatever the requests, and a subscription is undone by its opposite.
use welogical_vehicle_tracki.Common.{
  ◌≡◌, refl, String, Bool, false, List, [], ◌∷◌, ◌++◌, ◌==◌, str_eq, eq_iff, arith, inl, inr,
  Bool-cases,
}
use welogical_vehicle_tracki.WebSocket.{
  Socket, Connections, includes, add_topic, remove_topic, is_connected, change, disconnect, connect,
  subscribe, unsubscribe, dead_clients, disconnect_all, heartbeat,
}

-- Each topic stands once.
abbrev pub IsTopicSet : List String → Type 0
IsTopicSet [] = Unit
IsTopicSet (t ∷ topics) = (includes t topics ≡ false) × IsTopicSet topics

-- Each socket is registered once, with a set of topics.
abbrev pub IsRegistry : Connections → Type 0
IsRegistry [] = Unit
IsRegistry ((w, topics) ∷ rest) =
    (is_connected w rest ≡ false) × IsTopicSet topics × IsRegistry rest

includes-snoc :
    (t topic : String) (topics : List String)
    → includes t topics ≡ false
    → str_eq topic t ≡ false
    → includes t (topics ++ (topic ∷ [])) ≡ false
includes-snoc t topic [] h d = ground arith
includes-snoc t topic (x ∷ topics) h d = ground (arith, includes-snoc t topic topics)

str_eq_sym : (a b : String) → str_eq a b ≡ false → str_eq b a ≡ false
str_eq_sym a b h = ground (arith, eq_iff a b, eq_iff b a)

snoc-IsTopicSet :
    (topic : String) (topics : List String)
    → includes topic topics ≡ false
    → IsTopicSet topics
    → IsTopicSet (topics ++ (topic ∷ []))
snoc-IsTopicSet topic [] h s = (refl, tt)
snoc-IsTopicSet topic (x ∷ topics) h s =
    ground (arith, includes-snoc x topic topics, snoc-IsTopicSet topic topics, str_eq_sym x topic)

add_topic-IsTopicSet :
    (topic : String) (topics : List String)
    → IsTopicSet topics
    → IsTopicSet (add_topic topic topics)
add_topic-IsTopicSet topic topics s = elim (Bool-cases (includes topic topics)) [
  | inl e ↦ rw e s
  | inr e ↦ rw e (snoc-IsTopicSet topic topics e s)
]

includes-remove_topic :
    (t topic : String) (topics : List String)
    → includes t topics ≡ false
    → includes t (remove_topic topic topics) ≡ false
includes-remove_topic t topic [] h = refl
includes-remove_topic t topic (x ∷ topics) h = ground (arith, includes-remove_topic t topic topics)

remove_topic-IsTopicSet :
    (topic : String) (topics : List String)
    → IsTopicSet topics
    → IsTopicSet (remove_topic topic topics)
remove_topic-IsTopicSet topic [] s = tt
remove_topic-IsTopicSet topic (x ∷ topics) s =
    ground (arith, includes-remove_topic x topic topics, remove_topic-IsTopicSet topic topics)

is_connected-change :
    (w ws : Socket) (f : List String → List String) (m : Connections)
    → is_connected w (change ws f m) ≡ is_connected w m
unfolding change
is_connected-change w ws f [] = refl
is_connected-change w ws f ((v, topics) ∷ m) = ground (arith, is_connected-change w ws f m)

pub change-IsRegistry :
    (ws : Socket) (f : List String → List String) (m : Connections)
    → ((topics : List String) → IsTopicSet topics → IsTopicSet (f topics))
    → IsRegistry m
    → IsRegistry (change ws f m)
unfolding change
change-IsRegistry ws f [] g r = tt
change-IsRegistry ws f ((v, topics) ∷ m) g r =
    ground (arith, g topics, is_connected-change v ws f m, change-IsRegistry ws f m g)

is_connected-disconnect :
    (w ws : Socket) (m : Connections)
    → is_connected w m ≡ false
    → is_connected w (disconnect ws m) ≡ false
unfolding disconnect
is_connected-disconnect w ws [] h = refl
is_connected-disconnect w ws ((v, topics) ∷ m) h = ground (arith, is_connected-disconnect w ws m)

pub disconnect-IsRegistry :
    (ws : Socket) (m : Connections) → IsRegistry m → IsRegistry (disconnect ws m)
unfolding disconnect
disconnect-IsRegistry ws [] r = tt
disconnect-IsRegistry ws ((v, topics) ∷ m) r =
    ground (arith, is_connected-disconnect v ws m, disconnect-IsRegistry ws m)

is_connected-snoc :
    (w ws : Socket) (m : Connections)
    → is_connected w m ≡ false
    → (w == ws) ≡ false
    → is_connected w (m ++ ((ws, []) ∷ [])) ≡ false
is_connected-snoc w ws [] h d = ground arith
is_connected-snoc w ws ((v, topics) ∷ m) h d = ground (arith, is_connected-snoc w ws m)

snoc-IsRegistry :
    (ws : Socket) (m : Connections)
    → is_connected ws m ≡ false
    → IsRegistry m
    → IsRegistry (m ++ ((ws, []) ∷ []))
snoc-IsRegistry ws [] h r = (refl, tt, tt)
snoc-IsRegistry ws ((v, topics) ∷ m) h r =
    ground (arith, is_connected-snoc v ws m, snoc-IsRegistry ws m)

-- A request of a client, or a round of the heartbeat.
data Step : Connections → Connections → Type 0 where
  connected : (ws : Socket) (m : Connections) → Step m (connect ws m)
  disconnected : (ws : Socket) (m : Connections) → Step m (disconnect ws m)
  subscribed : (ws : Socket) (topic : String) (m : Connections) → Step m (subscribe ws topic m)
  unsubscribed : (ws : Socket) (topic : String) (m : Connections) → Step m (unsubscribe ws topic m)
  beaten : (alive : Socket → Bool) (m : Connections) → Step m (heartbeat alive m)

data Steps : Connections → Connections → Type 0 where
  done : (m : Connections) → Steps m m
  step : {a b c : Connections} → Step a b → Steps b c → Steps a c

disconnect_all-IsRegistry :
    (dead : List Socket) (m : Connections) → IsRegistry m → IsRegistry (disconnect_all dead m)
unfolding disconnect_all
disconnect_all-IsRegistry [] m r = r
disconnect_all-IsRegistry (ws ∷ dead) m r =
    disconnect_all-IsRegistry dead (disconnect ws m) (disconnect-IsRegistry ws m r)

Step-IsRegistry : (a b : Connections) → Step a b → IsRegistry a → IsRegistry b
unfolding heartbeat
Step-IsRegistry _ _ (connected ws m) r = elim (Bool-cases (is_connected ws m)) [
  | inl e ↦ rw e (change-IsRegistry ws (λ _. []) m (λ topics s. tt) r)
  | inr e ↦ rw e (snoc-IsRegistry ws m e r)
]
Step-IsRegistry _ _ (disconnected ws m) r = disconnect-IsRegistry ws m r
Step-IsRegistry _ _ (subscribed ws topic m) r =
    change-IsRegistry ws (add_topic topic) m (add_topic-IsTopicSet topic) r
Step-IsRegistry _ _ (unsubscribed ws topic m) r =
    change-IsRegistry ws (remove_topic topic) m (remove_topic-IsTopicSet topic) r
Step-IsRegistry _ _ (beaten alive m) r = disconnect_all-IsRegistry (dead_clients alive m) m r

-- From the empty registry on, whatever sockets are connected, disconnected, subscribed, unsubscribed
-- or dropped by the heartbeat, each socket is registered once and each of its topics stands once.
Steps-IsRegistry : (a b : Connections) → Steps a b → IsRegistry a → IsRegistry b
Steps-IsRegistry a b (done m) r = r
Steps-IsRegistry a c (step {b = b} first rest) r =
    Steps-IsRegistry b c rest (Step-IsRegistry a b first r)
