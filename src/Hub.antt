-- ===== src/Hub.antt =====
-- `Hub` of backend/internal/ws/hub.go with the send side of `Client` of client.go. The objects of
-- all connections are kept, those in the hub's map marked as registered. The event loop takes its
-- channels one message at a time, and each case is one step.
pub mod Clients
pub mod Disconnect
use open_scanner.Base.{
  ℕ, suc, ◌+◌, Bool, true, false, not, ◌&&◌, Option, none, some, String, List, [], ◌∷◌, ◌++◌, ltb,
  ◌==◌, if◌then◌else◌, length, keep, map, str_eq,
}

pub record Client : Type 0 where
  pub address : ℕ
  pub user_id : ℕ
  pub jti : String
  pub is_admin : Bool
  pub is_v1 : Bool
  -- the channel: what is buffered, and whether it is closed
  pub send : List String
  pub is_closed : Bool
  pub drop_count : ℕ
  pub is_registered : Bool

pub record Hub : Type 0 where
  pub clients : List Client
  pub is_done : Bool

abbrev pub send_buf_size : ℕ
send_buf_size = 256

abbrev pub close_send : Client → Client
close_send c = record c { is_closed = true }

-- A send on a closed channel panics, and the panic is recovered: nothing is sent.
unfoldable pub try_send : Client → String → Client
try_send c payload =
    if c.is_closed
    then c
    else if ltb (length c.send) send_buf_size
    then record c { send = c.send ++ (payload ∷ []) }
    else record c { drop_count = c.drop_count + 1 }

-- `broadcastMsg`
pub record BroadcastMsg : Type 0 where
  pub payload : String
  pub v1 : Option String
  pub filter : Option (Client → Bool)

abbrev pub passes : Option (Client → Bool) → Client → Bool
passes none c = true
passes (some filter) c = filter c

abbrev pub payload_for : BroadcastMsg → Option String → Client → String
payload_for msg none c = msg.payload
payload_for msg (some v1) c = if c.is_v1 then v1 else msg.payload

-- The broadcast case of `Run`, for one connection.
unfoldable pub deliver : BroadcastMsg → Client → Client
unfolding try_send
deliver msg c =
    if c.is_registered && passes msg.filter c then try_send c (payload_for msg msg.v1 c) else c

-- The unregister case, for one connection: in the map, or nothing happens.
unfoldable pub unregister_one : Client → Client
unregister_one c = if c.is_registered then close_send (record c { is_registered = false }) else c

-- `Register`: after the shutdown the channel is closed instead.
unfoldable pub register : Hub → Client → Hub
register h c = record h {
  clients =
      (if h.is_done
        then close_send (record c { is_registered = false })
        else record c { is_registered = true })
      ∷ h.clients;
}

abbrev pub unregister_at : ℕ → Client → Client
unregister_at address c = if c.address == address then unregister_one c else c

-- `trySend` of a notice to one connection, by whoever holds it.
unfoldable pub expire_at : String → ℕ → Client → Client
unfolding try_send
expire_at expired address c = if c.address == address then try_send c expired else c

-- `closeAll`
unfoldable pub close_all : Hub → Hub
unfolding unregister_one
close_all h = record { clients = map unregister_one h.clients; is_done = true }

abbrev is_listener : Client → Bool
is_listener c = c.is_registered && not c.is_admin

unfoldable pub client_count : Hub → ℕ
client_count h = length (keep is_listener h.clients)

abbrev pub is_of : ℕ → Client → Bool
is_of uid c = c.is_registered && (c.user_id == uid)

unfoldable pub count_by_user : Hub → ℕ → ℕ
count_by_user h uid = length (keep (is_of uid) h.clients)

-- What happens to a hub: calls of its methods, messages that the event loop takes, and its end. A
-- connection is new when it registers.
pub data Event : Type 0 where
  registers : Client → Event
  unregisters : ℕ → Event
  broadcasts : BroadcastMsg → Event
  -- a notice of expiry to the connection at an address
  expires : String → ℕ → Event
  stops : Event

unfoldable pub step : Hub → Event → Hub
unfolding register deliver expire_at close_all
step h (registers c) = register h (record c { send = []; is_closed = false; drop_count = 0 })
step h (unregisters address) = record h { clients = map (unregister_at address) h.clients }
step h (broadcasts msg) =
    if h.is_done then h else record h { clients = map (deliver msg) h.clients }
step h (expires expired address) = record h { clients = map (expire_at expired address) h.clients }
step h stops = close_all h

-- `DisconnectByUser` looks at the map once and lets go of it; then, for each connection of the user
-- that it saw, it sends a notice and hands the connection to the event loop. Other events can come
-- between these.
abbrev pub disconnect_events : String → List Client → List Event
disconnect_events expired [] = []
disconnect_events expired (c ∷ cs) =
    expires expired c.address ∷ unregisters c.address ∷ disconnect_events expired cs

unfoldable pub disconnect_by_user : Hub → String → ℕ → List Event
disconnect_by_user h expired uid = disconnect_events expired (keep (is_of uid) h.clients)

unfoldable pub run : Hub → List Event → Hub
unfolding step
run h [] = h
run h (e ∷ es) = run (step h e) es

abbrev pub new_hub : Hub
new_hub = record { clients = []; is_done = false }
