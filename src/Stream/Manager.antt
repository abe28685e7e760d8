-- ===== src/Stream/Manager.antt =====
-- `Manager` of backend/internal/stream/manager.go. The call lookup, the selection filter and the
-- encoder are function values of the code, and parameters here. Listeners are known by the address
-- of their object. A period is in nanoseconds.
pub mod Notified
use open_scanner.Base.{
  ℕ, ◌+◌, ◌*◌, ◌/◌, Bool, true, false, ◌||◌, Option, none, some, String, List, [], ◌∷◌, ltb, ◌==◌,
  if◌then◌else◌, length, keep, map,
}
use open_scanner.Stream.Mp3.{Bytes, frame_duration}
use open_scanner.Stream.Listener.{Listener, new_listener, enqueue}

pub record Call : Type 0 where
  pub id : ℕ
  pub system_id : ℕ
  pub talkgroup_id : ℕ
  pub audio_path : String

-- What `New` is given, and the encoder.
pub record Deps : Type 0 where
  pub source : ℕ → Option Call
  pub filter : Option (ℕ → Call → Bool)
  pub encode : String → Option (List Bytes)

pub record Manager : Type 0 where
  pub listeners : List (ℕ × Listener)
  pub silence : List Bytes
  pub period : ℕ

abbrev pub new_manager : Manager
new_manager = record { listeners = []; silence = []; period = 0 }

-- `Start`, with what `encodeSilence` returned. An encoder that succeeds returns a frame at least:
-- `frames[0]` of an empty slice would panic.
abbrev pub started : Manager → List Bytes → ℕ → ℕ → Manager × Bool
started m frames samples rate =
    if samples == 0 || rate == 0
    then (m, false)
    else (record m { silence = frames; period = samples * 1_000_000_000 / rate }, true)

unfoldable pub start : Manager → Option (List Bytes) → Manager × Bool
unfolding frame_duration
start m none = (m, false)
start m (some []) = (m, false)
start m (some (frame ∷ frames)) =
    let (samples, rate) = frame_duration frame in started m (frame ∷ frames) samples rate

unfoldable pub is_ready : Manager → Bool
is_ready m = ltb 0 (length m.silence)

-- 120 seconds of frames. A period of 0 gives 0, which is no bound.
abbrev pub max_frames_locked : Manager → ℕ
max_frames_locked m = if m.period == 0 then 0 else 120 * 1_000_000_000 / m.period

-- What `Notify` does outside the manager.
pub data Work : Type 0 where
  resolves : ℕ → Work
  encodes : String → Work

abbrev pub is_wanted : Option (ℕ → Call → Bool) → Call → Listener → Bool
is_wanted none call l = true
is_wanted (some filter) call l = filter l.user_id call

-- `l.enqueue(...)` on the listener at an address; one that has left meanwhile is heard by nobody.
abbrev pub enqueue_at : ℕ → ℕ → List Bytes → ℕ → List (ℕ × Listener) → List (ℕ × Listener)
enqueue_at address call_id frames max_frames ls =
    map
      (λ (a : ℕ × Listener).
        (a.0, if address == a.0 then enqueue a.1 call_id frames max_frames else a.1))
      ls

-- The loop over the wanted ones.
unfoldable pub enqueue_wanted :
    List (ℕ × Listener) → ℕ → List Bytes → ℕ → List (ℕ × Listener) → List (ℕ × Listener)
enqueue_wanted [] call_id frames max_frames ls = ls
enqueue_wanted ((address, l) ∷ wanted) call_id frames max_frames ls =
    enqueue_wanted wanted call_id frames max_frames
      (enqueue_at address call_id frames max_frames ls)

abbrev pub encoded :
    Manager → ℕ → Call → List (ℕ × Listener) → ℕ → Option (List Bytes) → Manager × List Work
encoded m call_id call wanted max_frames none = (m, resolves call_id ∷ encodes call.audio_path ∷ [])
encoded m call_id call wanted max_frames (some frames) = (
  record m { listeners = enqueue_wanted wanted call_id frames max_frames m.listeners },
  resolves call_id ∷ encodes call.audio_path ∷ [],
)

abbrev pub resolved :
    Deps → Manager → ℕ → List (ℕ × Listener) → ℕ → Option Call → Manager × List Work
resolved deps m call_id targets max_frames none = (m, resolves call_id ∷ [])
resolved deps m call_id targets max_frames (some call) =
    let wanted = keep (λ (a : ℕ × Listener). is_wanted deps.filter call a.1) targets in
    if length wanted == 0
    then (m, resolves call_id ∷ [])
    else encoded m call_id call wanted max_frames (deps.encode call.audio_path)

-- `Notify` lets go of the mutex behind its first look at the manager, `before`; `m` is the manager
-- when the call is enqueued, with whoever has come or gone meanwhile. The targets are the objects of
-- `before`, of which only the user is read.
unfoldable pub notify : Deps → Manager → Manager → ℕ → Manager × List Work
unfolding enqueue_wanted
notify deps before m call_id =
    if length before.listeners == 0 || length before.silence == 0
    then (m, [])
    else resolved deps m call_id before.listeners (max_frames_locked before) (deps.source call_id)

-- `m.listeners[l] = struct{}{}` for a new object, and `delete(m.listeners, l)`.
abbrev pub add : Manager → ℕ → Listener → Manager
add m address l = record m { listeners = (address, l) ∷ m.listeners }

abbrev pub remove : Manager → ℕ → Manager
remove m address = record m {
  listeners = keep (λ (a : ℕ × Listener). if a.0 == address then false else true) m.listeners;
}
