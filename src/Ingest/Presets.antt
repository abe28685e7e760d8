-- ===== src/Ingest/Presets.antt =====
-- The encoding presets of backend/internal/audio/worker.go that an upload reads.
use open_scanner.Base.{Bool, ◌||◌, String, List, [], ◌∷◌, any, str_eq, if◌then◌else◌}

abbrev pub valid_presets : List String
valid_presets =
    "aac_lc_32k" ∷ "aac_lc_24k" ∷ "aac_lc_16k" ∷ "he_aac_12k" ∷ "he_aac_8k" ∷ "mp3_32k" ∷ "mp3_24k"
    ∷ "mp3_16k" ∷ []

unfoldable pub parse_encoding_preset : String → String
parse_encoding_preset s = if any (λ p. str_eq p s) valid_presets then s else "mp3_32k"

abbrev pub is_mp3_encoding_preset : String → Bool
is_mp3_encoding_preset s = str_eq s "mp3_32k" || str_eq s "mp3_24k" || str_eq s "mp3_16k"

unfoldable pub output_mime : String → String
output_mime preset = if is_mp3_encoding_preset preset then "audio/mpeg" else "audio/mp4"
