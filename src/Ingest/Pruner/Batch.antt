-- ===== src/Ingest/Pruner/Batch.antt =====
-- The rows that a round of the pruner takes.
use open_scanner.Base.{
  ◌<◌, ◌≡◌, ◌⊎◌, inl, inr, true, List, [], ◌∷◌, length, keep, take, ltb_ℤ, Bool-cases, ℤ, Member,
  Member-keep, keep-Member, Member-take, take-short,
}
use open_scanner.Ingest.Tables.{Call, Db}
use open_scanner.Ingest.Rows.{insert_by_date, sort_by_date, is_prunable}

insert_by_date-Member :
    (c x : Call) (cs : List Call) → Member x (insert_by_date c cs) → (x ≡ c) ⊎ Member x cs
unfolding insert_by_date
insert_by_date-Member c x [] m = m
insert_by_date-Member c x (d ∷ ds) m = elim (Bool-cases (ltb_ℤ d.date_time c.date_time)) [
  | inr e ↦ rw e at m
  | inl e ↦ behind (rw e at m) (insert_by_date-Member c x ds)
]
  where
    behind :
        Member x (d ∷ insert_by_date c ds)
        → (Member x (insert_by_date c ds) → (x ≡ c) ⊎ Member x ds)
        → (x ≡ c) ⊎ Member x (d ∷ ds)
    behind (inl e) later = inr (inl e)
    behind (inr k) later = elim (later k) [ inl e ↦ inl e | inr k' ↦ inr (inr k') ]

Member-insert_by_date :
    (c x : Call) (cs : List Call) → (x ≡ c) ⊎ Member x cs → Member x (insert_by_date c cs)
unfolding insert_by_date
Member-insert_by_date c x [] m = m
Member-insert_by_date c x (d ∷ ds) m = elim (Bool-cases (ltb_ℤ d.date_time c.date_time)) [
  | inr e ↦ rw e m
  | inl e ↦ rw e (behind m (Member-insert_by_date c x ds))
]
  where
    behind :
        (x ≡ c) ⊎ Member x (d ∷ ds)
        → ((x ≡ c) ⊎ Member x ds → Member x (insert_by_date c ds))
        → Member x (d ∷ insert_by_date c ds)
    behind (inl e) later = inr (later (inl e))
    behind (inr (inl e)) later = inl e
    behind (inr (inr k)) later = inr (later (inr k))

pub sort_by_date-Member : (x : Call) (cs : List Call) → Member x (sort_by_date cs) → Member x cs
unfolding sort_by_date
sort_by_date-Member x [] m = m
sort_by_date-Member x (c ∷ cs) m = elim (insert_by_date-Member c x (sort_by_date cs) m) [
  | inl e ↦ inl e
  | inr k ↦ inr (sort_by_date-Member x cs k)
]

Member-sort_by_date : (x : Call) (cs : List Call) → Member x cs → Member x (sort_by_date cs)
unfolding sort_by_date
Member-sort_by_date x [] m = m
Member-sort_by_date x (c ∷ cs) (inl e) = Member-insert_by_date c x (sort_by_date cs) (inl e)
Member-sort_by_date x (c ∷ cs) (inr k) =
    Member-insert_by_date c x (sort_by_date cs) (inr (Member-sort_by_date x cs k))

-- The rows of one round.
abbrev pub batch : Db → ℤ → List Call
batch db cutoff = take 500 (sort_by_date (keep (is_prunable db cutoff) db.calls))

pub batch-prunable :
    (db : Db) (cutoff : ℤ) (x : Call)
    → Member x (batch db cutoff)
    → Member x db.calls × (is_prunable db cutoff x ≡ true)
batch-prunable db cutoff x m =
    Member-keep (is_prunable db cutoff) db.calls x
      (sort_by_date-Member x (keep (is_prunable db cutoff) db.calls) (Member-take 500 _ x m))

-- A short batch has all of them.
pub prunable-batch :
    (db : Db) (cutoff : ℤ) (x : Call)
    → length (batch db cutoff) < 500
    → Member x db.calls
    → is_prunable db cutoff x ≡ true
    → Member x (batch db cutoff)
prunable-batch db cutoff x short m e =
    rw (take-short 500 (sort_by_date (keep (is_prunable db cutoff) db.calls)) short) (
      Member-sort_by_date x (keep (is_prunable db cutoff) db.calls)
        (keep-Member (is_prunable db cutoff) db.calls x m e))
