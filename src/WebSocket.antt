-- ===== src/WebSocket.antt =====
-- app/services/websocket_manager.py: the registry of the connected sockets with their topics, and the
-- broadcasts; and the commands of a client, app/routers/websocket.py. A socket is a number. A set of
-- topics is a list without repetition, and the registry lists the sockets in the order of their
-- registration, as a dict does. The lock makes each operation one step.
use Prim.Native.String.{◌++◌ as concat}
use welogical_vehicle_tracki.Common.{
  ℕ, String, Bool, true, false, not, ◌||◌, Option, none, some, List, [], ◌∷◌, ◌++◌, ◌==◌, str_eq,
  if◌then◌else◌,
}
pub mod Laws
pub mod Broadcast
mod Tests

abbrev pub Socket : Type 0
Socket = ℕ

-- `active_connections`
abbrev pub Connections : Type 0
Connections = List (Socket × List String)

abbrev pub includes : String → List String → Bool
includes topic [] = false
includes topic (t ∷ topics) =
    let rest = includes topic topics in if str_eq t topic then true else rest

-- `topics.add(topic)` and `topics.remove(topic)`
abbrev pub add_topic : String → List String → List String
add_topic topic topics = if includes topic topics then topics else topics ++ (topic ∷ [])

abbrev pub remove_topic : String → List String → List String
remove_topic topic [] = []
remove_topic topic (t ∷ topics) =
    let rest = remove_topic topic topics in if str_eq t topic then topics else t ∷ rest

-- `websocket in self.active_connections`
abbrev pub is_connected : Socket → Connections → Bool
is_connected ws [] = false
is_connected ws ((w, topics) ∷ rest) =
    let found = is_connected ws rest in if w == ws then true else found

-- `self.active_connections[websocket]`
abbrev pub topics_of : Socket → Connections → Option (List String)
topics_of ws [] = none
topics_of ws ((w, topics) ∷ rest) =
    let found = topics_of ws rest in if w == ws then some topics else found

-- A change of the topics of a registered socket.
unfoldable pub change : Socket → (List String → List String) → Connections → Connections
change ws f [] = []
change ws f ((w, topics) ∷ rest) =
    let changed = change ws f rest in
    if w == ws then (w, f topics) ∷ rest else (w, topics) ∷ changed

-- `del self.active_connections[websocket]`
unfoldable pub disconnect : Socket → Connections → Connections
disconnect ws [] = []
disconnect ws ((w, topics) ∷ rest) =
    let removed = disconnect ws rest in if w == ws then rest else (w, topics) ∷ removed

-- An accepted socket that is registered already loses its topics.
abbrev pub connect : Socket → Connections → Connections
connect ws m = if is_connected ws m then change ws (λ _. []) m else m ++ ((ws, []) ∷ [])

abbrev pub subscribe : Socket → String → Connections → Connections
subscribe ws topic m = change ws (add_topic topic) m

-- A topic that is not in the set stays out of it.
abbrev pub unsubscribe : Socket → String → Connections → Connections
unsubscribe ws topic m = change ws (remove_topic topic) m

abbrev pub wants : String → List String → Bool
wants topic topics = includes topic topics || (includes "fleet" topics || includes "*" topics)

-- The sockets that a broadcast goes to; a delivery that fails is logged.
unfoldable pub broadcast : String → Connections → List Socket
broadcast topic [] = []
broadcast topic ((w, topics) ∷ rest) =
    let targets = broadcast topic rest in if wants topic topics then w ∷ targets else targets

-- One round of `run_heartbeat_loop`: `alive` says which pings are sent.
unfoldable pub dead_clients : (Socket → Bool) → Connections → List Socket
dead_clients alive [] = []
dead_clients alive ((w, topics) ∷ rest) =
    let dead = dead_clients alive rest in if alive w then dead else w ∷ dead

unfoldable pub disconnect_all : List Socket → Connections → Connections
unfolding disconnect
disconnect_all [] m = m
disconnect_all (ws ∷ dead) m = disconnect_all dead (disconnect ws m)

unfoldable pub heartbeat : (Socket → Bool) → Connections → Connections
unfolding disconnect_all dead_clients
heartbeat alive m = disconnect_all (dead_clients alive m) m

-- What a client is told.
pub record Reply : Type 0 where
  pub status : String
  pub message : String

-- The body of the loop of `websocket_endpoint`, on `message.split(maxsplit=1)` and on whether the
-- message is "pong".
abbrev pub is_pong : Bool → Option Reply
is_pong true = none
is_pong false = some (record {
  status = "error";
  message = "Malformed message. Expected format: subscribe/unsubscribe <topic>";
})

unfoldable pub handle_message :
    (String → String) → Socket → List String → Bool → Connections → Option Reply × Connections
unfolding change
handle_message lower ws (command ∷ topic ∷ []) pong m =
    if str_eq (lower command) "subscribe"
    then (
      some (record {
        status = "success";
        message = concat "Subscribed to channel '" (concat topic "'.");
      }),
      subscribe ws topic m,
    )
    else if str_eq (lower command) "unsubscribe"
    then (
      some (record {
        status = "success";
        message = concat "Unsubscribed from channel '" (concat topic "'.");
      }),
      unsubscribe ws topic m,
    )
    else (
      some (record {
        status = "error";
        message =
            concat "Invalid command '"
              (concat (lower command) "'. Expected: subscribe / unsubscribe");
      }),
      m,
    )
handle_message lower ws parts pong m = (is_pong pong, m)
