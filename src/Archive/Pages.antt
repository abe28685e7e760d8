-- ===== src/Archive/Pages.antt =====
-- The pages that `ListCalls` and `ListCallsAsc` of backend/internal/db/calls.sql.go read.
use open_scanner.Base.{
  ℕ, zero, suc, Bool, true, false, ◌⊎◌, inl, inr, ◌≤◌, Option, none, some, List, [], ◌∷◌, ◌++◌,
  arith, length, take, drop, keep, Member, Member-keep, Member-take, Bool-cases, if◌then◌else◌, ℤ,
}
use open_scanner.Ingest.Tables.{Call, q_list_calls}
use open_scanner.Ingest.Rows.{sort_by_date}
use open_scanner.Ingest.Pruner.Batch.{sort_by_date-Member}
use open_scanner.Archive.{Archive, ArchiveEnv}
use open_scanner.Archive.Rows.{Filter, is_match, reversed, skipped, list_calls}

Member-drop : (n : ℕ) (cs : List Call) (c : Call) → Member c (drop n cs) → Member c cs
Member-drop zero cs c m = m
Member-drop (suc n) [] c m = m
Member-drop (suc n) (d ∷ ds) c m = inr (Member-drop n ds c m)

append-Member : (cs ds : List Call) (c : Call) → Member c (cs ++ ds) → Member c cs ⊎ Member c ds
append-Member [] ds c m = inr m
append-Member (d ∷ cs) ds c (inl e) = inl (inl e)
append-Member (d ∷ cs) ds c (inr m) = elim (append-Member cs ds c m) [
  | inl k ↦ inl (inr k)
  | inr k ↦ inr k
]

reversed-Member : (cs : List Call) (c : Call) → Member c (reversed cs) → Member c cs
reversed-Member [] c m = m
reversed-Member (d ∷ cs) c m = elim (append-Member (reversed cs) (d ∷ []) c m) [
  | inl k ↦ inr (reversed-Member cs c k)
  | inr (inl e) ↦ inl e
  | inr (inr k) ↦ absurd k
]

length-take_le : (n : ℕ) (cs : List Call) → length (take n cs) ≤ n
length-take_le zero cs = omega arith
length-take_le (suc n) [] = omega arith
length-take_le (suc n) (c ∷ cs) = let ih = length-take_le n cs in omega arith

ordered-Member :
    (ascending : Bool) (cs : List Call) (c : Call)
    → Member c (if ascending then sort_by_date cs else reversed (sort_by_date cs))
    → Member c cs
ordered-Member true cs c m = sort_by_date-Member c cs m
ordered-Member false cs c m = sort_by_date-Member c cs (reversed-Member (sort_by_date cs) c m)

module _ (env : ArchiveEnv) (a : Archive) where
  -- A page of the table.
  abbrev pub IsPage : ℕ → Option (List Call) → Type 0
  IsPage limit none = Unit
  IsPage limit (some cs) = (length cs ≤ limit) × ((c : Call) → Member c cs → Member c a.db.calls)

  pub list_calls-IsPage :
      (f : Filter) (ascending : Bool) (offset : ℤ) (limit : ℕ)
      → IsPage limit (list_calls env a f ascending offset limit)
  unfolding list_calls
  list_calls-IsPage f ascending offset limit = elim (Bool-cases (env.fails q_list_calls)) [
    | inl e ↦ rw e tt
    | inr e ↦ rw e (length-take_le limit _, within)
  ]
    where
      within :
          (c : Call)
          → Member c (
              take limit (
                drop (skipped offset) (
                  if ascending
                  then sort_by_date (keep (is_match env a f) a.db.calls)
                  else reversed (sort_by_date (keep (is_match env a f) a.db.calls)))))
          → Member c a.db.calls
      within c m =
          let dropped = Member-take limit _ c m in
          let ordered = Member-drop (skipped offset) _ c dropped in
          let kept = ordered-Member ascending (keep (is_match env a f) a.db.calls) c ordered in
          (Member-keep (is_match env a f) a.db.calls c kept).0
