-- ===== src/Tests/StreamTests.antt =====
-- backend/internal/stream and the ring of backend/internal/trmqtt at concrete inputs.
use open_scanner.Base.{ℕ, ◌≡◌, refl, true, some, List, [], ◌∷◌, ◌==◌, All, replicate}
use open_scanner.Trmqtt.Ring.{Ring, new_ring, push_all, snapshot}
use open_scanner.Trmqtt.Ring.Refines.{push_all-new_ring-snapshot}
use open_scanner.Stream.Mp3.{
  Bytes, MpegFrame, parse_frame_header, header_of, versioned_frame, sized_frame, split_frames,
}
use open_scanner.Stream.Mp3.Frames.{
  IsFrame, split_frames-IsFrame, split_frames-concatenated, concatenated,
}
use open_scanner.Stream.Listener.{
  Event, enqueues, primes, ticks, cancels, new_listener, opened, run,
}
use open_scanner.Stream.Listener.Sound.{Cued}
use open_scanner.Stream.Listener.Cues.{run-cues, IsStart}
use open_scanner.Stream.Manager.{Call, Deps, Manager, notify}
use open_scanner.Stream.Manager.Notified.{heard_by, notify-listeners}

abbrev pushed : List ℕ
pushed = 1 ∷ 2 ∷ 3 ∷ []

abbrev empty_ring : Ring ℕ
empty_ring = new_ring 0 2

push_all-new_ring-snapshot_example : snapshot (push_all empty_ring pushed) ≡ some 2 ∷ some 3 ∷ []
push_all-new_ring-snapshot_example = push_all-new_ring-snapshot 0 2 pushed

-- The header of an MPEG-2 frame of 104 bytes, 32 kbit/s at 22.05 kHz, mono.
abbrev frame : Bytes
frame = 255 ∷ 243 ∷ 64 ∷ 192 ∷ replicate 100 0

abbrev decoded : MpegFrame
decoded = record { length = 104; sample_rate = 22050; samples = 576; channels = 1 }

frame-IsFrame : IsFrame frame
unfolding parse_frame_header header_of versioned_frame sized_frame
frame-IsFrame = (decoded, refl, refl)

split_frames-IsFrame_example : All IsFrame (split_frames (1 ∷ 2 ∷ concatenated (frame ∷ [])))
split_frames-IsFrame_example = split_frames-IsFrame (1 ∷ 2 ∷ concatenated (frame ∷ []))

split_frames-concatenated_example :
    split_frames (concatenated (frame ∷ frame ∷ [])) ≡ frame ∷ frame ∷ []
split_frames-concatenated_example =
    split_frames-concatenated (frame ∷ frame ∷ []) (frame-IsFrame, (frame-IsFrame, tt))

abbrev life : List Event
life =
    primes true
    ∷ enqueues 5 ((1 ∷ []) ∷ (2 ∷ []) ∷ [])
    ∷ ticks true
    ∷ ticks true
    ∷ ticks true
    ∷ enqueues 6 ((3 ∷ []) ∷ [])
    ∷ ticks true
    ∷ cancels
    ∷ []

run-cues_example :
    let s = run ((0 ∷ []) ∷ []) 10 (opened 7 "s") life in All (Cued (IsStart life) s.written) s.cues
run-cues_example = run-cues ((0 ∷ []) ∷ []) 10 7 "s" life

abbrev call : Call
call = record { id = 5; system_id = 1; talkgroup_id = 2; audio_path = "a.wav" }

-- User 7 wants every call, and nobody else any.
abbrev deps : Deps
deps = record {
  source = λ id. some call;
  filter = some (λ uid c. uid == 7);
  encode = λ path. some ((1 ∷ []) ∷ []);
}

abbrev manager : Manager
manager = record {
  listeners = (100, new_listener 7 "s") ∷ (200, new_listener 8 "t") ∷ [];
  silence = (0 ∷ []) ∷ [];
  period = 26_122_448;
}

-- A third listener has joined.
abbrev later : Manager
later = record manager { listeners = (300, new_listener 7 "u") ∷ manager.listeners }

notify-listeners_example :
    (notify deps manager later 5).0.listeners
    ≡ heard_by deps manager later 5 (some (call, (1 ∷ []) ∷ []))
notify-listeners_example = notify-listeners deps manager later 5 (refl, (refl, tt))
