-- ===== src/Ingest/Pruner.antt =====
-- `pruneOldCalls` of backend/internal/audio/pruner.go. The loop runs on fuel: `none` is a loop that
-- has not ended yet. Paths are values of the environment's own functions.
pub mod Batch
pub mod Rounds
pub mod Ends
pub mod Whole
use open_scanner.Base.{
  ℕ, suc, zero, ◌+◌, Bool, true, false, Option, none, some, String, List, [], ◌∷◌, ◌++◌, length,
  ltb, ltb_ℤ, if◌then◌else◌, ℤ, pos, concat,
}
use text.Mathlib.Text.{starts_with}
use open_scanner.Ingest.Tables.{Call, Db, Faults, q_get_setting}
use open_scanner.Ingest.Rows.{get_call_ids_older_than, delete_call_batch}

pub record PruneEnv : Type 0 where
  pub fails : Faults
  -- strconv.Atoi
  pub parse_int : String → Option ℤ
  -- `time.Now().AddDate(0, 0, -pruneDays).Unix()`
  pub cutoff : ℤ → ℤ
  pub recordings_dir : String
  -- filepath.Join and filepath.Clean
  pub join : String → String → String
  pub clean : String → String

pub record PruneState : Type 0 where
  pub db : Db
  -- the files that `os.Remove` was called on, in order; a file that is not there is no error, and
  -- any other error is logged
  pub removed : List String

abbrev pub audio_path_of : PruneEnv → Call → String
audio_path_of env c = env.join env.recordings_dir c.audio_path

-- The defence in depth of the code, with the separator of a Unix system.
abbrev pub stays_within : PruneEnv → String → Bool
stays_within env path = starts_with (env.clean path) (concat (env.clean env.recordings_dir) "/")

unfoldable pub prune_row : PruneEnv → ℕ → PruneState → Call → PruneState
prune_row env round s row = record {
  db = delete_call_batch env.fails s.db round row.id;
  removed =
      if stays_within env (audio_path_of env row)
      then s.removed ++ (audio_path_of env row ∷ [])
      else s.removed;
}

unfoldable pub prune_rows : PruneEnv → ℕ → PruneState → List Call → PruneState
unfolding prune_row
prune_rows env round s [] = s
prune_rows env round s (row ∷ rows) = prune_rows env round (prune_row env round s row) rows

-- Behind the query, with what the rest of the loop would do.
abbrev pub prune_batch :
    PruneEnv
    → ℕ
    → PruneState
    → (PruneState → Option PruneState)
    → Option (List Call)
    → Option PruneState
prune_batch env round s again none = some s
prune_batch env round s again (some []) = some s
prune_batch env round s again (some (row ∷ rows)) =
    let s' = prune_rows env round s (row ∷ rows) in
    if ltb (length (row ∷ rows)) 500 then some s' else again s'

unfoldable pub prune_loop : ℕ → PruneEnv → ℤ → ℕ → PruneState → Option PruneState
unfolding prune_rows
prune_loop zero env cutoff round s = none
prune_loop (suc fuel) env cutoff round s =
    prune_batch env round s (λ s'. prune_loop fuel env cutoff (suc round) s')
      (get_call_ids_older_than env.fails s.db round cutoff)

abbrev pub prune_days : ℕ → PruneEnv → PruneState → Option ℤ → Option PruneState
prune_days fuel env s none = some s
prune_days fuel env s (some days) =
    if ltb_ℤ (pos 0) days then prune_loop fuel env (env.cutoff days) 0 s else some s

-- A setting that is missing or cannot be read ends the run as well.
abbrev pub prune_setting : ℕ → PruneEnv → PruneState → Option String → Option PruneState
prune_setting fuel env s none = some s
prune_setting fuel env s (some value) = prune_days fuel env s (env.parse_int value)

unfoldable pub prune_old_calls : ℕ → PruneEnv → PruneState → Option PruneState
unfolding prune_loop
prune_old_calls fuel env s =
    prune_setting fuel env s
      (if env.fails (q_get_setting "pruneDays") then none else s.db.settings "pruneDays")
