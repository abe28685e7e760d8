-- ===== src/Hub/Clients.antt =====
-- The connections of a hub over any history: backend/internal/ws/hub.go.
use open_scanner.Base.{
  ℕ, ◌≤◌, ◌≡◌, refl, Bool, true, false, ◌&&◌, String, List, [], ◌∷◌, arith, ◌==◌, if◌then◌else◌,
  length, map, All, Bool-cases, inl, inr, length-append,
}
use open_scanner.Hub.{
  Client, Hub, BroadcastMsg, send_buf_size, try_send, deliver, unregister_one, register, expire_at,
  close_all, Event, registers, unregisters, broadcasts, expires, stops, step, run, new_hub,
  unregister_at, passes, payload_for,
}

-- The buffer is within its size, a connection in the hub's map has an open channel, and after the
-- shutdown no connection is in the map.
abbrev pub IsSound : Bool → Client → Type 0
IsSound done c =
    (length c.send ≤ send_buf_size)
    × ((c.is_registered && c.is_closed) ≡ false)
    × ((done && c.is_registered) ≡ false)

either :
    (done b : Bool) (c d : Client)
    → IsSound done c
    → IsSound done d
    → IsSound done (if b then c else d)
either done true c d sound sound' = sound
either done false c d sound sound' = sound'

try_send-IsSound :
    (done : Bool) (c : Client) (payload : String)
    → IsSound done c
    → IsSound done (try_send c payload)
unfolding try_send
try_send-IsSound done c payload (fits, opened, out) =
    ground (arith, length-append c.send (payload ∷ []))

deliver-IsSound :
    (done : Bool) (msg : BroadcastMsg) (c : Client) → IsSound done c → IsSound done (deliver msg c)
unfolding deliver
deliver-IsSound done msg c sound =
    either done (c.is_registered && passes msg.filter c) _ c
      (try_send-IsSound done c (payload_for msg msg.v1 c) sound) sound

unregister_one-IsSound :
    (done after : Bool) (c : Client) → IsSound done c → IsSound after (unregister_one c)
unfolding unregister_one
unregister_one-IsSound done after c (fits, opened, out) = ground arith

unregister_at-IsSound :
    (done : Bool) (address : ℕ) (c : Client)
    → IsSound done c
    → IsSound done (unregister_at address c)
unregister_at-IsSound done address c sound =
    either done (c.address == address) _ c (unregister_one-IsSound done done c sound) sound

expire_at-IsSound :
    (done : Bool) (expired : String) (address : ℕ) (c : Client)
    → IsSound done c
    → IsSound done (expire_at expired address c)
unfolding expire_at
expire_at-IsSound done expired address c sound =
    either done (c.address == address) _ c (try_send-IsSound done c expired sound) sound

All-map_each :
    (before after : Bool) (f : Client → Client) (cs : List Client)
    → ((c : Client) → IsSound before c → IsSound after (f c))
    → All (IsSound before) cs
    → All (IsSound after) (map f cs)
All-map_each before after f [] h sound = tt
All-map_each before after f (c ∷ cs) h (first, sound) =
    (h c first, All-map_each before after f cs h sound)

either_hub :
    (b : Bool) (h k : Hub)
    → All (IsSound h.is_done) h.clients
    → All (IsSound k.is_done) k.clients
    → All (IsSound (if b then h else k).is_done) (if b then h else k).clients
either_hub true h k sound sound' = sound
either_hub false h k sound sound' = sound'

step-IsSound :
    (h : Hub) (e : Event)
    → All (IsSound h.is_done) h.clients
    → All (IsSound (step h e).is_done) (step h e).clients
unfolding step register close_all
step-IsSound h (registers c) sound = elim (Bool-cases h.is_done) [
  | inl over ↦ (rw over (omega arith, refl, refl), sound)
  | inr running ↦ (rw running (omega arith, refl, refl), sound)
]
step-IsSound h (unregisters address) sound =
    All-map_each h.is_done h.is_done (unregister_at address) h.clients
      (unregister_at-IsSound h.is_done address) sound
step-IsSound h (broadcasts msg) sound =
    either_hub h.is_done h (record h { clients = map (deliver msg) h.clients }) sound
      (All-map_each h.is_done h.is_done (deliver msg) h.clients (deliver-IsSound h.is_done msg)
        sound)
step-IsSound h (expires expired address) sound =
    All-map_each h.is_done h.is_done (expire_at expired address) h.clients
      (expire_at-IsSound h.is_done expired address) sound
step-IsSound h stops sound =
    All-map_each h.is_done true unregister_one h.clients (unregister_one-IsSound h.is_done true)
      sound

run-Sound :
    (h : Hub) (es : List Event)
    → All (IsSound h.is_done) h.clients
    → All (IsSound (run h es).is_done) (run h es).clients
unfolding run
run-Sound h [] sound = sound
run-Sound h (e ∷ es) sound = run-Sound (step h e) es (step-IsSound h e sound)

-- Over any history of a new hub, every connection has at most 256 messages buffered, a connection in
-- the hub's map has an open channel, and after the shutdown the map is empty, whoever registers then.
pub run-new_hub :
    (es : List Event) → All (IsSound (run new_hub es).is_done) (run new_hub es).clients
run-new_hub es = run-Sound new_hub es tt
