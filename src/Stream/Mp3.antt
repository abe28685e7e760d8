-- ===== src/Stream/Mp3.antt =====
-- backend/internal/stream/mp3.go: MPEG Layer III frame headers, and the split of an encoder's
-- output into frames. A byte is a number below 256; shifts and masks are quotients and remainders.
pub mod Frames
use open_scanner.Base.{
  ℕ, zero, suc, ◌+◌, ◌*◌, ◌/◌, ◌%◌, Bool, true, false, not, ◌&&◌, ◌||◌, Option, none, some, List,
  [], ◌∷◌, ltb, leb, ◌==◌, if◌then◌else◌, length, get_elem?, take, drop,
}

abbrev pub Bytes : Type 0
Bytes = List ℕ

abbrev pub bitrates_v1 : List ℕ
bitrates_v1 =
    0 ∷ 32 ∷ 40 ∷ 48 ∷ 56 ∷ 64 ∷ 80 ∷ 96 ∷ 112 ∷ 128 ∷ 160 ∷ 192 ∷ 224 ∷ 256 ∷ 320 ∷ 0 ∷ []

abbrev pub bitrates_v2 : List ℕ
bitrates_v2 = 0 ∷ 8 ∷ 16 ∷ 24 ∷ 32 ∷ 40 ∷ 48 ∷ 56 ∷ 64 ∷ 80 ∷ 96 ∷ 112 ∷ 128 ∷ 144 ∷ 160 ∷ 0 ∷ []

abbrev pub sample_rates_v1 : List ℕ
sample_rates_v1 = 44100 ∷ 48000 ∷ 32000 ∷ 0 ∷ []

abbrev pub sample_rates_v2 : List ℕ
sample_rates_v2 = 22050 ∷ 24000 ∷ 16000 ∷ 0 ∷ []

abbrev pub sample_rates_v25 : List ℕ
sample_rates_v25 = 11025 ∷ 12000 ∷ 8000 ∷ 0 ∷ []

-- The tables have 16 and 4 entries and the indices are 4 and 2 bits wide.
abbrev pub at : List ℕ → ℕ → ℕ
at table i = elim (get_elem? table i) [ none ↦ 0 | some v ↦ v ]

pub record MpegFrame : Type 0 where
  pub length : ℕ
  pub sample_rate : ℕ
  pub samples : ℕ
  pub channels : ℕ

-- The last part of `parseFrameHeader`, behind the `switch`.
unfoldable pub sized_frame : ℕ → ℕ → ℕ → ℕ → ℕ → ℕ → Option MpegFrame
sized_frame kbps rate samples coefficient padding chan_mode =
    if kbps == 0 || rate == 0
    then none
    else let size = coefficient * kbps * 1000 / rate + padding in
      if ltb size 4
      then none
      else some (record {
        length = size;
        sample_rate = rate;
        samples = samples;
        channels = if chan_mode == 3 then 1 else 2;
      })

-- The `switch version`.
unfoldable pub versioned_frame : ℕ → ℕ → ℕ → ℕ → ℕ → Option MpegFrame
unfolding sized_frame
versioned_frame version bitrate_idx rate_idx padding chan_mode =
    if version == 3
    then sized_frame (at bitrates_v1 bitrate_idx) (at sample_rates_v1 rate_idx) 1152 144 padding
        chan_mode
    else if version == 2
    then sized_frame (at bitrates_v2 bitrate_idx) (at sample_rates_v2 rate_idx) 576 72 padding
        chan_mode
    else sized_frame (at bitrates_v2 bitrate_idx) (at sample_rates_v25 rate_idx) 576 72 padding
        chan_mode

-- The guards on the first four bytes.
unfoldable pub header_of : ℕ → ℕ → ℕ → ℕ → Option MpegFrame
unfolding versioned_frame
header_of b0 b1 b2 b3 =
    if not (b0 == 255) || not (b1 / 32 % 8 == 7)
    then none
    else let version = b1 / 8 % 4 in
      let layer = b1 / 2 % 4 in
      if version == 1 || not (layer == 1)
      then none
      else let bitrate_idx = b2 / 16 % 16 in
        let rate_idx = b2 / 4 % 4 in
        if bitrate_idx == 0 || bitrate_idx == 15 || rate_idx == 3
        then none
        else versioned_frame version bitrate_idx rate_idx (b2 / 2 % 2) (b3 / 64 % 4)

unfoldable pub parse_frame_header : Bytes → Option MpegFrame
unfolding header_of
parse_frame_header (b0 ∷ b1 ∷ b2 ∷ b3 ∷ rest) = header_of b0 b1 b2 b3
parse_frame_header _ = none

-- Where the frames begin: behind a leading ID3v2 tag, whose size has 7 bits in each byte.
abbrev pub tag_end : Bytes → ℕ
tag_end (b0 ∷ b1 ∷ b2 ∷ b3 ∷ b4 ∷ b5 ∷ b6 ∷ b7 ∷ b8 ∷ b9 ∷ rest) =
    if b0 == 73 && b1 == 68 && b2 == 51
    then 10 + (b6 % 128 * 2_097_152 + b7 % 128 * 16_384 + b8 % 128 * 128 + b9 % 128)
    else 0
tag_end _ = 0

-- The loop, on the bytes from `i` on; each round drops at least one byte, so their number is
-- enough fuel.
pub split_from : ℕ → Bytes → List Bytes
unfolding parse_frame_header
split_from zero bytes = []
split_from (suc fuel) [] = []
split_from (suc fuel) (b ∷ bs) = elim (parse_frame_header (b ∷ bs)) [
  | none ↦ split_from fuel bs
  | some f ↦
      if ltb (length (b ∷ bs)) f.length
      then []
      else take f.length (b ∷ bs) ∷ split_from fuel (drop f.length (b ∷ bs))
]

unfoldable pub split_frames : Bytes → List Bytes
unfolding split_from
split_frames bytes = split_from (length bytes) (drop (tag_end bytes) bytes)

unfoldable pub frame_duration : Bytes → ℕ × ℕ
unfolding parse_frame_header
frame_duration frame = elim (parse_frame_header frame) [
  | none ↦ (0, 0)
  | some f ↦ (f.samples, f.sample_rate)
]
