-- ===== src/Stream/Mp3/Frames.antt =====
-- The frames that `splitFrames` of backend/internal/stream/mp3.go hands out.
use open_scanner.Base.{
  ℕ, zero, suc, ◌+◌, ◌/◌, ◌%◌, ◌≤◌, ◌≡◌, refl, sym, ap, ◌∙◌, inl, inr, Bool, true, false, Option,
  some, List, [], ◌∷◌, ◌++◌, arith, ltb, ltb→ge, ge→ltb, ◌==◌, if◌then◌else◌, length, take, drop,
  All, Bool-cases, Option-cases, length-append, length-take, take-append, drop-append,
}
use open_scanner.Stream.Mp3.{
  Bytes, MpegFrame, at, bitrates_v1, bitrates_v2, sample_rates_v1, sample_rates_v2,
  sample_rates_v25, sized_frame, versioned_frame, header_of, parse_frame_header, split_from,
  split_frames, tag_end,
}

-- The bytes are one whole frame: its header gives exactly its length.
abbrev pub IsFrame : Bytes → Type 0
IsFrame bytes = (f : MpegFrame) × (parse_frame_header bytes ≡ some f) × (f.length ≡ length bytes)

sized_frame-length :
    (kbps rate samples coefficient padding chan_mode : ℕ) (f : MpegFrame)
    → sized_frame kbps rate samples coefficient padding chan_mode ≡ some f
    → 4 ≤ f.length
unfolding sized_frame
sized_frame-length kbps rate samples coefficient padding chan_mode f e = ground arith

-- Both branches of a test.
either :
    (b : Bool) (o p : Option MpegFrame) (f : MpegFrame)
    → (o ≡ some f → 4 ≤ f.length)
    → (p ≡ some f → 4 ≤ f.length)
    → (if b then o else p) ≡ some f
    → 4 ≤ f.length
either true o p f first second e = first e
either false o p f first second e = second e

versioned_frame-length :
    (version bitrate_idx rate_idx padding chan_mode : ℕ) (f : MpegFrame)
    → versioned_frame version bitrate_idx rate_idx padding chan_mode ≡ some f
    → 4 ≤ f.length
unfolding versioned_frame
versioned_frame-length version bitrate_idx rate_idx padding chan_mode f e =
    let long = λ (kbps rate samples coefficient : ℕ).
      sized_frame-length kbps rate samples coefficient padding chan_mode f in
    either (version == 3)
      (sized_frame (at bitrates_v1 bitrate_idx) (at sample_rates_v1 rate_idx) 1152 144 padding
        chan_mode)
      _ f (long (at bitrates_v1 bitrate_idx) (at sample_rates_v1 rate_idx) 1152 144)
      (either (version == 2)
        (sized_frame (at bitrates_v2 bitrate_idx) (at sample_rates_v2 rate_idx) 576 72 padding
          chan_mode)
        (sized_frame (at bitrates_v2 bitrate_idx) (at sample_rates_v25 rate_idx) 576 72 padding
          chan_mode)
        f (long (at bitrates_v2 bitrate_idx) (at sample_rates_v2 rate_idx) 576 72)
        (long (at bitrates_v2 bitrate_idx) (at sample_rates_v25 rate_idx) 576 72))
      e

-- A header that parses announces at least its own four bytes.
header_of-length : (b0 b1 b2 b3 : ℕ) (f : MpegFrame) → header_of b0 b1 b2 b3 ≡ some f → 4 ≤ f.length
unfolding header_of
header_of-length b0 b1 b2 b3 f e =
    let long =
      versioned_frame-length (b1 / 8 % 4) (b2 / 16 % 16) (b2 / 4 % 4) (b2 / 2 % 2) (b3 / 64 % 4)
        f in
    ground (arith, long)

parse_frame_header-length :
    (bytes : Bytes) (f : MpegFrame) → parse_frame_header bytes ≡ some f → 4 ≤ f.length
unfolding parse_frame_header
parse_frame_header-length [] f e = cc
parse_frame_header-length (a ∷ []) f e = cc
parse_frame_header-length (a ∷ b ∷ []) f e = cc
parse_frame_header-length (a ∷ b ∷ c ∷ []) f e = cc
parse_frame_header-length (a ∷ b ∷ c ∷ d ∷ more) f e = header_of-length a b c d f e

-- The header alone decides.
parse_frame_header-append :
    (bytes rest : Bytes) (f : MpegFrame)
    → parse_frame_header bytes ≡ some f
    → parse_frame_header (bytes ++ rest) ≡ some f
unfolding parse_frame_header
parse_frame_header-append [] rest f e = cc
parse_frame_header-append (a ∷ []) rest f e = cc
parse_frame_header-append (a ∷ b ∷ []) rest f e = cc
parse_frame_header-append (a ∷ b ∷ c ∷ []) rest f e = cc
parse_frame_header-append (a ∷ b ∷ c ∷ d ∷ more) rest f e = e

parse_frame_header-take :
    (n : ℕ) (bytes : Bytes) → 4 ≤ n → parse_frame_header (take n bytes) ≡ parse_frame_header bytes
unfolding parse_frame_header
parse_frame_header-take zero bytes le = elim le [ ]
parse_frame_header-take (suc zero) bytes le = ground arith
parse_frame_header-take (suc (suc zero)) bytes le = ground arith
parse_frame_header-take (suc (suc (suc zero))) bytes le = ground arith
parse_frame_header-take (suc (suc (suc (suc n)))) [] le = refl
parse_frame_header-take (suc (suc (suc (suc n)))) (a ∷ []) le = refl
parse_frame_header-take (suc (suc (suc (suc n)))) (a ∷ b ∷ []) le = refl
parse_frame_header-take (suc (suc (suc (suc n)))) (a ∷ b ∷ c ∷ []) le = refl
parse_frame_header-take (suc (suc (suc (suc n)))) (a ∷ b ∷ c ∷ d ∷ more) le = refl

-- Every frame handed out is a whole frame, whatever the input.
split_from-IsFrame : (fuel : ℕ) (bytes : Bytes) → All IsFrame (split_from fuel bytes)
unfolding split_from
split_from-IsFrame zero bytes = tt
split_from-IsFrame (suc fuel) [] = tt
split_from-IsFrame (suc fuel) (b ∷ bs) = elim (Option-cases (parse_frame_header (b ∷ bs))) [
  | inl bad ↦ rw (All, bad) (split_from-IsFrame fuel bs)
  | inr (f, good) ↦ elim (Bool-cases (ltb (length (b ∷ bs)) f.length)) [
    | inl cut ↦ rw (All, good, cut) tt
    | inr whole ↦
        rw (All, good, whole)
          (
            (
              f,
              parse_frame_header-take f.length (b ∷ bs) (parse_frame_header-length (b ∷ bs) f good)
                  ∙ good,
              sym (length-take f.length (b ∷ bs) (ltb→ge (length (b ∷ bs)) f.length whole)),
            ),
            split_from-IsFrame fuel (drop f.length (b ∷ bs)),
          )
  ]
]

-- Whatever the bytes, every frame handed out is one whole frame: its header parses, and the length
-- in the header is the length of the frame.
pub split_frames-IsFrame : (bytes : Bytes) → All IsFrame (split_frames bytes)
unfolding split_frames
split_frames-IsFrame bytes = split_from-IsFrame (length bytes) (drop (tag_end bytes) bytes)

abbrev pub concatenated : List Bytes → Bytes
concatenated [] = []
concatenated (frame ∷ frames) = frame ++ concatenated frames

-- A round of the loop at a frame.
split_from-frame :
    (fuel b : ℕ) (bs : Bytes) (f : MpegFrame)
    → parse_frame_header (b ∷ bs) ≡ some f
    → ltb (length (b ∷ bs)) f.length ≡ false
    → split_from (suc fuel) (b ∷ bs)
      ≡ take f.length (b ∷ bs) ∷ split_from fuel (drop f.length (b ∷ bs))
unfolding split_from
split_from-frame fuel b bs f good whole = rw (split_from, good, whole) refl

-- With fuel for every byte, concatenated frames are cut where they were joined.
split_from-concatenated :
    (fuel : ℕ) (frames : List Bytes)
    → All IsFrame frames
    → length (concatenated frames) ≤ fuel
    → split_from fuel (concatenated frames) ≡ frames
unfolding split_from
split_from-concatenated zero [] whole le = refl
split_from-concatenated (suc fuel) [] whole le = refl
split_from-concatenated fuel ([] ∷ frames) ((f, good, size), whole) le =
    ground (arith, parse_frame_header-length [] f good)
split_from-concatenated zero ((b ∷ bs) ∷ frames) whole le = elim le [ ]
split_from-concatenated (suc fuel) ((b ∷ bs) ∷ frames) ((f, good, size), whole) le =
    let joined = concatenated frames in
    let sum : length ((b ∷ bs) ++ joined) ≡ length (b ∷ bs) + length joined =
      length-append (b ∷ bs) joined in
    split_from-frame fuel b (bs ++ joined) f (parse_frame_header-append (b ∷ bs) joined f good)
      (ge→ltb (length ((b ∷ bs) ++ joined)) f.length (omega arith))
    ∙ rw (size, take-append (b ∷ bs) joined, drop-append (b ∷ bs) joined)
        (ap (λ t. (b ∷ bs) ∷ t) (split_from-concatenated fuel frames whole (omega arith)))

header_of-sync : (b0 b1 b2 b3 : ℕ) (f : MpegFrame) → header_of b0 b1 b2 b3 ≡ some f → b0 ≡ 255
unfolding header_of
header_of-sync b0 b1 b2 b3 f e = ground arith

-- Bytes that start with a frame have no tag.
tag_end-frame :
    (bytes : Bytes) (f : MpegFrame) → parse_frame_header bytes ≡ some f → tag_end bytes ≡ 0
unfolding parse_frame_header
tag_end-frame [] f e = refl
tag_end-frame (a ∷ []) f e = refl
tag_end-frame (a ∷ b ∷ []) f e = refl
tag_end-frame (a ∷ b ∷ c ∷ []) f e = refl
tag_end-frame (a ∷ b ∷ c ∷ d ∷ []) f e = refl
tag_end-frame (a ∷ b ∷ c ∷ d ∷ x ∷ []) f e = refl
tag_end-frame (a ∷ b ∷ c ∷ d ∷ x ∷ y ∷ []) f e = refl
tag_end-frame (a ∷ b ∷ c ∷ d ∷ x ∷ y ∷ z ∷ []) f e = refl
tag_end-frame (a ∷ b ∷ c ∷ d ∷ x ∷ y ∷ z ∷ u ∷ []) f e = refl
tag_end-frame (a ∷ b ∷ c ∷ d ∷ x ∷ y ∷ z ∷ u ∷ v ∷ []) f e = refl
tag_end-frame (a ∷ b ∷ c ∷ d ∷ x ∷ y ∷ z ∷ u ∷ v ∷ w ∷ rest) f e =
    let sync : a ≡ 255 = header_of-sync a b c d f e in rw sync refl

tag_end-concatenated :
    (frames : List Bytes) → All IsFrame frames → tag_end (concatenated frames) ≡ 0
tag_end-concatenated [] whole = refl
tag_end-concatenated (frame ∷ frames) ((f, good, size), whole) =
    tag_end-frame (frame ++ concatenated frames) f
      (parse_frame_header-append frame (concatenated frames) f good)

-- Splitting is the inverse of concatenating whole frames.
pub split_frames-concatenated :
    (frames : List Bytes) → All IsFrame frames → split_frames (concatenated frames) ≡ frames
unfolding split_frames
split_frames-concatenated frames whole =
    rw (tag_end-concatenated frames whole)
      (split_from-concatenated (length (concatenated frames)) frames whole (omega arith))
