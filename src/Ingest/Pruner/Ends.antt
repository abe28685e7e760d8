-- ===== src/Ingest/Pruner/Ends.antt =====
-- The loop of the pruner ends, and what it leaves.
use open_scanner.Base.{
  ℕ, zero, suc, ◌<◌, ◌≡◌, refl, sym, ap, subst, ◌∙◌, inl, inr, Bool, true, false, not, Option, some,
  String, List, [], ◌∷◌, length, keep, ltb, ltb→lt, arith, Bool-cases, ℤ, Member, Member-All,
  keep-All,
}
use open_scanner.Ingest.Tables.{Call, Db}
use open_scanner.Ingest.Rows.{is_prunable, get_call_ids_older_than}
use open_scanner.Ingest.Pruner.Batch.{batch, batch-prunable, prunable-batch}
use open_scanner.Ingest.Pruner.Rounds.{
  Works, Removed, without, prune_rows-db, prune_rows-removed, Member-without, length-without-lt,
  keep-without,
}
use open_scanner.Ingest.Pruner.{PruneEnv, PruneState, prune_rows, prune_batch, prune_loop}

-- `id` is the primary key.
abbrev pub IsKeyed : List Call → Type 0
IsKeyed cs = (c d : Call) → Member c cs → Member d cs → c.id ≡ d.id → c ≡ d

abbrev pub remains : Db → ℤ → Call → Bool
remains db cutoff c = not (is_prunable db cutoff c)

-- The prunable calls are gone and nothing else changed; a file that was removed is that of a
-- prunable call, below the recordings directory.
pub record Rest (env : PruneEnv) (cutoff : ℤ) (s s' : PruneState) : Type 0 where
  pub db : s'.db ≡ record s.db { calls = keep (remains s.db cutoff) s.db.calls }
  pub removed :
      (path : String)
      → Member path s'.removed
      → Removed env s.removed (λ c. Member c s.db.calls × (is_prunable s.db cutoff c ≡ true)) path

-- One round.
module _ (env : PruneEnv) (cutoff : ℤ) (round : ℕ) (s : PruneState) (works : Works env)
    (keyed : IsKeyed s.db.calls) where
  abbrev after : PruneState
  after = prune_rows env round s (batch s.db cutoff)

  round-calls : after.db.calls ≡ without (batch s.db cutoff) s.db.calls
  round-calls = ap (λ d. d.calls) (prune_rows-db env round s (batch s.db cutoff) works)

  round-kept : keep (remains s.db cutoff) after.db.calls ≡ keep (remains s.db cutoff) s.db.calls
  round-kept = rw round-calls (
      keep-without (remains s.db cutoff) (batch s.db cutoff) s.db.calls
        (λ r m c k same. pruned r m c k same))
    where
      pruned :
          (r : Call)
          → Member r (batch s.db cutoff)
          → (c : Call) → Member c s.db.calls
          → c.id ≡ r.id
          → remains s.db cutoff c ≡ false
      pruned r m c k same =
          let (k', e) = batch-prunable s.db cutoff r m in
          let e' : is_prunable s.db cutoff c ≡ true = rw (keyed c r k k' same) e in rw e' refl

  round-short :
      length (batch s.db cutoff) < 500 → after.db.calls ≡ keep (remains s.db cutoff) s.db.calls
  round-short short =
      sym (
        keep-All (remains s.db cutoff) after.db.calls (Member-All after.db.calls (λ c m. left c m)))
      ∙ round-kept
    where
      left : (c : Call) → Member c after.db.calls → remains s.db cutoff c ≡ true
      left c m = elim (Bool-cases (is_prunable s.db cutoff c)) [
        | inr e ↦ rw e refl
        | inl e ↦
            let (k, gone) = Member-without (batch s.db cutoff) s.db.calls c (rw round-calls at m) in
            absurd (gone c (prunable-batch s.db cutoff c short k e) refl)
      ]

  round-IsKeyed : IsKeyed after.db.calls
  round-IsKeyed c d m k = keyed c d (before c m) (before d k)
    where
      before : (x : Call) → Member x after.db.calls → Member x s.db.calls
      before x n = (Member-without (batch s.db cutoff) s.db.calls x (rw round-calls at n)).0

  round-removed :
      (path : String)
      → Member path after.removed
      → Removed env s.removed (λ c. Member c s.db.calls × (is_prunable s.db cutoff c ≡ true)) path
  round-removed path m = elim (prune_rows-removed env round s (batch s.db cutoff) path m) [
    | inl k ↦ inl k
    | inr (c, k, e, w) ↦ inr (c, batch-prunable s.db cutoff c k, e, w)
  ]

  short-Rest : length (batch s.db cutoff) < 500 → Rest env cutoff s after
  short-Rest short = record {
    db =
        prune_rows-db env round s (batch s.db cutoff) works
        ∙ ap {A = List Call} {B = Db} (λ cs. record s.db { calls = cs })
            (sym round-calls ∙ round-short short);
    removed = round-removed;
  }

  -- A pruned rest.
  later-Rest : (s' : PruneState) → Rest env cutoff after s' → Rest env cutoff s s'
  later-Rest s' p = record {
    db =
        p.db
        ∙ same_rest after.db (without (batch s.db cutoff) s.db.calls)
            (prune_rows-db env round s (batch s.db cutoff) works) (rw round-calls at round-kept);
    removed = λ path m. earlier path (p.removed path m);
  }
    where
      same_rest :
          (d : Db) (cs : List Call)
          → d ≡ record s.db { calls = cs }
          → keep (remains s.db cutoff) cs ≡ keep (remains s.db cutoff) s.db.calls
          → record d { calls = keep (remains d cutoff) d.calls }
            ≡ record s.db { calls = keep (remains s.db cutoff) s.db.calls }
      same_rest d cs e h = rw e (ap {A = List Call} {B = Db} (λ k. record s.db { calls = k }) h)

      still :
          (d : Db) (cs : List Call) (c : Call)
          → d ≡ record s.db { calls = cs }
          → is_prunable d cutoff c ≡ true
          → is_prunable s.db cutoff c ≡ true
      still d cs c e h = rw e at h

      earlier :
          (path : String)
          → Removed env after.removed
              (λ c. Member c after.db.calls × (is_prunable after.db cutoff c ≡ true))
              path
          → Removed env s.removed
              (λ c. Member c s.db.calls × (is_prunable s.db cutoff c ≡ true))
              path
      earlier path (inl m) = round-removed path m
      earlier path (inr (c, (m, e), q, w)) = inr (
        c,
        (
          (Member-without (batch s.db cutoff) s.db.calls c (rw round-calls at m)).0,
          still after.db (without (batch s.db cutoff) s.db.calls) c
              (prune_rows-db env round s (batch s.db cutoff) works) e,
        ),
        q,
        w,
      )

  -- Another round has fewer calls to look at.
  round-lt :
      (r : Call) (rs : List Call)
      → batch s.db cutoff ≡ r ∷ rs
      → length after.db.calls < length s.db.calls
  round-lt r rs e =
      rw (round-calls, e)
        (length-without-lt r rs s.db.calls (batch-prunable s.db cutoff r (rw e (inl refl))).0)

abbrev pub LoopEnds : Option PruneState → PruneEnv → ℤ → PruneState → Type 0
LoopEnds o env cutoff s = (s' : PruneState) × (o ≡ some s') × Rest env cutoff s s'

pub prune_loop-LoopEnds :
    (fuel : ℕ) (env : PruneEnv) (cutoff : ℤ) (round : ℕ) (s : PruneState)
    → Works env
    → IsKeyed s.db.calls
    → length s.db.calls < fuel
    → LoopEnds (prune_loop fuel env cutoff round s) env cutoff s
unfolding prune_loop get_call_ids_older_than
prune_loop-LoopEnds zero env cutoff round s works keyed h = elim h [ ]
prune_loop-LoopEnds (suc fuel) env cutoff round s works keyed h = rw (works.older round) (
    go (batch s.db cutoff) refl
      (λ s' k m. prune_loop-LoopEnds fuel env cutoff (suc round) s' works k m))
  where
    run : List Call → PruneState
    run rows = prune_rows env round s rows

    as_run :
        (rows : List Call)
        → batch s.db cutoff ≡ rows
        → length rows < 500
        → Rest env cutoff s (run rows)
    as_run rows e short =
        subst (λ l. Rest env cutoff s (run l)) e
          (short-Rest env cutoff round s works keyed (rw e short))

    more :
        (rows : List Call)
        → batch s.db cutoff ≡ rows
        → length (run (batch s.db cutoff)).db.calls < length s.db.calls
        → ((s' : PruneState)
            → IsKeyed s'.db.calls
            → length s'.db.calls < fuel
            → LoopEnds (prune_loop fuel env cutoff (suc round) s') env cutoff s')
        → LoopEnds (prune_loop fuel env cutoff (suc round) (run rows)) env cutoff s
    more rows e fewer later =
        let (s', q, p) =
          later (run (batch s.db cutoff)) (round-IsKeyed env cutoff round s works keyed)
            (omega (arith, fewer, h)) in
        subst (λ l. LoopEnds (prune_loop fuel env cutoff (suc round) (run l)) env cutoff s) e
          (s', q, later-Rest env cutoff round s works keyed s' p)

    go :
        (rows : List Call)
        → batch s.db cutoff ≡ rows
        → ((s' : PruneState)
            → IsKeyed s'.db.calls
            → length s'.db.calls < fuel
            → LoopEnds (prune_loop fuel env cutoff (suc round) s') env cutoff s')
        → LoopEnds
            (prune_batch env round s (λ s'. prune_loop fuel env cutoff (suc round) s') (some rows))
            env
            cutoff
            s
    go [] e later = (s, refl, as_run [] e (omega arith))
    go (r ∷ rs) e later = elim (Bool-cases (ltb (length (r ∷ rs)) 500)) [
      | inl short ↦
          rw short (run (r ∷ rs), refl, as_run (r ∷ rs) e (ltb→lt (length (r ∷ rs)) 500 short))
      | inr long ↦ rw long (more (r ∷ rs) e (round-lt env cutoff round s works keyed r rs e) later)
    ]
