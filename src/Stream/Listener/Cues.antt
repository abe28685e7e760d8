-- ===== src/Stream/Listener/Cues.antt =====
-- The bound on a listener's queue, and the cues that `Serve` of backend/internal/stream/manager.go
-- publishes.
use Prim.{⊥}
use open_scanner.Base.{
  ℕ, ◌-◌, ◌≤◌, ◌<◌, ◌≡◌, refl, ◌⊎◌, inl, inr, List, [], ◌∷◌, String, arith, length, length-drop,
  All,
}
use open_scanner.Stream.Mp3.{Bytes}
use open_scanner.Stream.Listener.{
  Listener, Event, enqueues, primes, ticks, cancels, append_frames, enqueue, run, opened,
}
use open_scanner.Stream.Listener.Sound.{Known, Cued, run-Sound}

-- After a call was enqueued the queue is within a positive bound, however long it was before.
enqueue-length :
    (l : Listener) (call_id max_frames : ℕ) (frames : List Bytes)
    → 0 < max_frames
    → length (enqueue l call_id frames max_frames).queue ≤ max_frames
unfolding enqueue
enqueue-length l call_id max_frames frames positive =
    let queue = append_frames call_id 0 frames l.queue in
    ground (arith, length-drop (length queue - max_frames) queue)

-- The calls that a history hands over, with their first frames.
abbrev pub IsStart : List Event → ℕ → Bytes → Type 0
IsStart [] call_id frame = ⊥
IsStart (enqueues c (f ∷ fs) ∷ es) call_id frame =
    ((c ≡ call_id) × (f ≡ frame)) ⊎ IsStart es call_id frame
IsStart (e ∷ es) call_id frame = IsStart es call_id frame

Known-starts :
    (P : ℕ → Bytes → Type 0) (es : List Event)
    → ((call_id : ℕ) (frame : Bytes) → IsStart es call_id frame → P call_id frame)
    → All (Known P) es
Known-starts P [] within = tt
Known-starts P (enqueues call_id [] ∷ es) within =
    (tt, Known-starts P es (λ c f start. within c f start))
Known-starts P (enqueues call_id (frame ∷ frames) ∷ es) within = (
  within call_id frame (inl (refl, refl)),
  Known-starts P es (λ c f start. within c f (inr start)),
)
Known-starts P (primes ok ∷ es) within = (tt, Known-starts P es within)
Known-starts P (ticks ok ∷ es) within = (tt, Known-starts P es within)
Known-starts P (cancels ∷ es) within = (tt, Known-starts P es within)

-- In any interleaving of calls, priming and ticks on a new stream, with any silence and any bound
-- on the queue, every cue is right: a frame was written at the position that it names, and this
-- frame is the first frame of a call that was handed over under the id that it names.
pub run-cues :
    (silence : List Bytes) (max_frames user_id : ℕ) (sid : String) (es : List Event)
    → let s = run silence max_frames (opened user_id sid) es in
      All (Cued (IsStart es) s.written) s.cues
run-cues silence max_frames user_id sid es =
    (run-Sound (IsStart es) silence max_frames (opened user_id sid) es
      (Known-starts (IsStart es) es (λ call_id frame start. start))
      (record { marked = tt; counted = λ e. refl; cued = tt })).cued
