-- ===== src/Ingest/Duplicate.antt =====
-- `IsDuplicate` of backend/internal/audio/duplicate.go. Times are unix seconds, and
-- the bounds of the window wrap around. `none` is an error.
pub mod Apart
use open_scanner.Base.{
  ℕ, ◌/◌, Bool, true, false, Option, none, some, ltb, if◌then◌else◌, ℤ, pos, negsuc, ◌+ℤ◌, neg_ℕ,
  int64,
}
use open_scanner.Ingest.Tables.{Db, Faults}
use open_scanner.Ingest.Rows.{has_call_at_timestamp, has_call_in_time_range}

-- The window in seconds, one at least.
abbrev pub window_sec : ℕ → ℕ
window_sec window_ms = if ltb (window_ms / 1000) 1 then 1 else window_ms / 1000

abbrev in_window : Faults → Db → ℕ → ℕ → ℤ → ℕ → Option Bool → Option Bool
in_window fails db system talkgroup t window_ms none = none
in_window fails db system talkgroup t window_ms (some true) = some true
in_window fails db system talkgroup t window_ms (some false) =
    has_call_in_time_range fails db system talkgroup (int64 (t +ℤ neg_ℕ (window_sec window_ms)))
      (int64 (t +ℤ pos (window_sec window_ms)))

-- A window of 0 or less disables the check.
unfoldable pub is_duplicate : Faults → Db → ℕ → ℕ → ℤ → ℤ → Option Bool
unfolding has_call_at_timestamp int64
is_duplicate fails db system talkgroup t (negsuc n) = some false
is_duplicate fails db system talkgroup t (pos n) =
    if ltb 0 n
    then in_window fails db system talkgroup t n (has_call_at_timestamp fails db system talkgroup t)
    else some false
