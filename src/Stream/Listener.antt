-- ===== src/Stream/Listener.antt =====
-- The listener of backend/internal/stream/manager.go: its queue, and what `Serve` writes to it.
-- Positions are counted in frames. A frame that does not exist, which would panic, reads `none`.
pub mod Sound
pub mod Cues
use open_scanner.Base.{
  ℕ, zero, suc, ◌+◌, ◌-◌, ◌%◌, Bool, true, false, ◌&&◌, String, Option, none, some, List, [], ◌∷◌,
  ◌++◌, ltb, ◌==◌, if◌then◌else◌, length, get_elem?, drop,
}
use open_scanner.Stream.Mp3.{Bytes}

pub record QueuedFrame : Type 0 where
  pub call_id : ℕ
  pub bytes : Bytes

pub record Listener : Type 0 where
  pub user_id : ℕ
  pub sid : String
  pub frames_written : ℕ
  pub queue : List QueuedFrame
  pub silence_idx : ℕ

abbrev pub new_listener : ℕ → String → Listener
new_listener user_id sid = record {
  user_id = user_id;
  sid = sid;
  frames_written = 0;
  queue = [];
  silence_idx = 0;
}

-- What `next` returns: the bytes, the id of the call that starts here, and the position.
pub record Popped : Type 0 where
  pub listener : Listener
  pub frame : Option Bytes
  pub call_id : ℕ
  pub position : ℕ

abbrev pub pop : Listener → List QueuedFrame → List Bytes → Popped
pop l (f ∷ rest) silence = record {
  listener = record l { frames_written = l.frames_written + 1; queue = rest };
  frame = some f.bytes;
  call_id = f.call_id;
  position = l.frames_written;
}
pop l [] silence = record {
  listener = record l { frames_written = l.frames_written + 1; silence_idx = l.silence_idx + 1 };
  frame = get_elem? silence (l.silence_idx % length silence);
  call_id = 0;
  position = l.frames_written;
}

unfoldable pub next : Listener → List Bytes → Popped
next l silence = pop l l.queue silence

-- The loop of `enqueue` from round `i`.
pub append_frames : ℕ → ℕ → List Bytes → List QueuedFrame → List QueuedFrame
append_frames call_id i [] queue = queue
append_frames call_id i (f ∷ fs) queue =
    append_frames call_id (i + 1) fs
      (queue ++ (record { call_id = if i == 0 then call_id else 0; bytes = f } ∷ []))

abbrev trimmed : ℕ → List QueuedFrame → List QueuedFrame
trimmed max_frames queue =
    if ltb 0 max_frames && ltb max_frames (length queue)
    then drop (length queue - max_frames) queue
    else queue

unfoldable pub enqueue : Listener → ℕ → List Bytes → ℕ → Listener
unfolding append_frames
enqueue l call_id frames max_frames = record l {
  queue = trimmed max_frames (append_frames call_id 0 frames l.queue);
}

-- What one `Serve` has done: the frames it has written and the cues it has published, as the call
-- and the position whose product with the period is the published offset.
pub record Session : Type 0 where
  pub listener : Listener
  pub written : List Bytes
  pub cues : List (ℕ × ℕ)
  pub is_open : Bool

-- A write that fails, and a context that is cancelled, end `Serve`.
abbrev pub wrote : Session → Popped → Option Bytes → Bool → List (ℕ × ℕ) → Session
wrote s p none ok cues = record s { listener = p.listener; is_open = false }
wrote s p (some frame) ok cues =
    if ok
    then record s { listener = p.listener; written = s.written ++ (frame ∷ []); cues = cues }
    else record s { listener = p.listener; is_open = false }

-- A round of the priming loop, which looks at neither the call nor the position.
unfoldable pub prime : Session → List Bytes → Bool → Session
unfolding next
prime s silence ok = let p = next s.listener silence in wrote s p p.frame ok s.cues

-- A tick of the paced loop. `call_id == 0` marks a frame where no call starts.
unfoldable pub tick : Session → List Bytes → Bool → Session
unfolding next
tick s silence ok =
    let p = next s.listener silence in
    wrote s p p.frame ok
      (if p.call_id == 0 then s.cues else s.cues ++ ((p.call_id, p.position) ∷ []))

-- What can happen to a listener: `Notify` hands it a call at any moment after `add`.
pub data Event : Type 0 where
  enqueues : ℕ → List Bytes → Event
  primes ticks : Bool → Event
  cancels : Event

unfoldable pub step : List Bytes → ℕ → Session → Event → Session
unfolding enqueue prime tick
step silence max_frames s (enqueues call_id frames) = record s {
  listener = enqueue s.listener call_id frames max_frames;
}
step silence max_frames s (primes ok) = if s.is_open then prime s silence ok else s
step silence max_frames s (ticks ok) = if s.is_open then tick s silence ok else s
step silence max_frames s cancels = record s { is_open = false }

unfoldable pub run : List Bytes → ℕ → Session → List Event → Session
unfolding step
run silence max_frames s [] = s
run silence max_frames s (e ∷ es) = run silence max_frames (step silence max_frames s e) es

abbrev pub opened : ℕ → String → Session
opened user_id sid = record {
  listener = new_listener user_id sid;
  written = [];
  cues = [];
  is_open = true;
}
