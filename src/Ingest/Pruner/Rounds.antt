-- ===== src/Ingest/Pruner/Rounds.antt =====
-- What one round of the pruner removes.
use open_scanner.Base.{
  ℕ, ◌<◌, ◌≤◌, ◌≡◌, ◌≢◌, refl, ap, ◌∙◌, ◌⊎◌, inl, inr, Bool, true, false, not, String, List, [],
  ◌∷◌, ◌++◌, length, keep, ◌==◌, ==_iff, arith, Bool-cases, Member, Member-keep, length-keep-lt,
  length-keep-le, keep-keep,
}
use open_scanner.Ingest.Tables.{Call, Db, q_older, q_delete_call}
use open_scanner.Ingest.Rows.{delete_call_batch}
use open_scanner.Ingest.Pruner.{
  PruneEnv, PruneState, audio_path_of, stays_within, prune_row, prune_rows,
}

-- The calls without those with the id of one of the rows.
abbrev pub without : List Call → List Call → List Call
without [] cs = cs
without (r ∷ rs) cs = without rs (keep (λ c. not (c.id == r.id)) cs)

-- All the queries of the pruner work.
pub record Works (env : PruneEnv) : Type 0 where
  pub older : (round : ℕ) → env.fails (q_older round) ≡ false
  pub delete : (round id : ℕ) → env.fails (q_delete_call round id) ≡ false

pub prune_rows-db :
    (env : PruneEnv) (round : ℕ) (s : PruneState) (rows : List Call)
    → Works env
    → (prune_rows env round s rows).db ≡ record s.db { calls = without rows s.db.calls }
unfolding prune_rows prune_row delete_call_batch
prune_rows-db env round s [] works = refl
prune_rows-db env round s (r ∷ rs) works =
    prune_rows-db env round (prune_row env round s r) rs works
    ∙ ap {A = Db} {B = Db} (λ d. record d { calls = without rs d.calls }) deleted
  where
    deleted :
        (prune_row env round s r).db
        ≡ record s.db { calls = keep (λ c. not (c.id == r.id)) s.db.calls }
    deleted = rw (works.delete round r.id) refl

-- A path among the removed files: it was there, or is that of a row and stays within.
abbrev pub Removed : PruneEnv → List String → (Call → Type 0) → String → Type 0
Removed env before P path =
    Member path before
    ⊎ ((c : Call) × P c × (path ≡ audio_path_of env c) × (stays_within env path ≡ true))

prune_row-removed :
    (env : PruneEnv) (round : ℕ) (s : PruneState) (r : Call) (path : String)
    → Member path (prune_row env round s r).removed
    → Removed env s.removed (λ c. c ≡ r) path
unfolding prune_row
prune_row-removed env round s r path m =
    elim (Bool-cases (stays_within env (audio_path_of env r))) [
      | inr e ↦ inl (rw e at m)
      | inl e ↦ added s.removed e (rw e at m)
    ]
  where
    added :
        (before : List String)
        → stays_within env (audio_path_of env r) ≡ true
        → Member path (before ++ (audio_path_of env r ∷ []))
        → Removed env before (λ c. c ≡ r) path
    added [] e (inr k) = absurd k
    added [] e (inl same) = inr (r, refl, same, rw same e)
    added (b ∷ bs) e (inl same) = inl (inl same)
    added (b ∷ bs) e (inr k) = elim (added bs e k) [ inl k' ↦ inl (inr k') | inr k' ↦ inr k' ]

pub prune_rows-removed :
    (env : PruneEnv) (round : ℕ) (s : PruneState) (rows : List Call) (path : String)
    → Member path (prune_rows env round s rows).removed
    → Removed env s.removed (λ c. Member c rows) path
unfolding prune_rows
prune_rows-removed env round s [] path m = inl m
prune_rows-removed env round s (r ∷ rs) path m =
    elim (prune_rows-removed env round (prune_row env round s r) rs path m) [
      | inr (c, k, e, w) ↦ inr (c, inr k, e, w)
      | inl k ↦ elim (prune_row-removed env round s r path k) [
        | inl k' ↦ inl k'
        | inr (c, same, e, w) ↦ inr (c, inl same, e, w)
      ]
    ]

different : (a b : ℕ) → not (a == b) ≡ true → a ≢ b
different a b h e = ground arith

pub Member-without :
    (rs cs : List Call) (x : Call)
    → Member x (without rs cs)
    → Member x cs × ((r : Call) → Member r rs → x.id ≢ r.id)
Member-without [] cs x m = (m, λ r k. absurd k)
Member-without (r ∷ rs) cs x m =
    let (k, later) = Member-without rs (keep (λ c. not (c.id == r.id)) cs) x m in
    let (k', passed) = Member-keep (λ c. not (c.id == r.id)) cs x k in (k', split passed later)
  where
    split :
        not (x.id == r.id) ≡ true
        → ((r' : Call) → Member r' rs → x.id ≢ r'.id)
        → (r' : Call) → Member r' (r ∷ rs)
        → x.id ≢ r'.id
    split passed later r' (inr k) = later r' k
    split passed later r' (inl same) = rw same (different x.id r.id passed)

length-without-le : (rs cs : List Call) → length (without rs cs) ≤ length cs
length-without-le [] cs = omega arith
length-without-le (r ∷ rs) cs = omega (
  arith,
  length-without-le rs (keep (λ c. not (c.id == r.id)) cs),
  length-keep-le (λ c. not (c.id == r.id)) cs,
)

pub length-without-lt :
    (r : Call) (rs cs : List Call) → Member r cs → length (without (r ∷ rs) cs) < length cs
length-without-lt r rs cs m = omega (
  arith,
  length-without-le rs (keep (λ c. not (c.id == r.id)) cs),
  length-keep-lt (λ c. not (c.id == r.id)) cs r m (same r.id),
)
  where
    same : (a : ℕ) → not (a == a) ≡ false
    same a = ground arith

-- What no row's id can belong to stays.
pub keep-without :
    (p : Call → Bool) (rs cs : List Call)
    → ((r : Call) → Member r rs → (c : Call) → Member c cs → c.id ≡ r.id → p c ≡ false)
    → keep p (without rs cs) ≡ keep p cs
keep-without p [] cs h = refl
keep-without p (r ∷ rs) cs h =
    keep-without p rs (keep (λ c. not (c.id == r.id)) cs)
      (λ r' k c m. h r' (inr k) c (Member-keep (λ c'. not (c'.id == r.id)) cs c m).0)
    ∙ keep-keep p (λ c. not (c.id == r.id)) cs
        (λ c m e. differs c (λ same. h r (inl refl) c m same) e)
  where
    differs : (c : Call) → (c.id ≡ r.id → p c ≡ false) → p c ≡ true → not (c.id == r.id) ≡ true
    differs c k e = elim (Bool-cases (c.id == r.id)) [
      | inr f ↦ rw f refl
      | inl f ↦ let q : p c ≡ false = k ((==_iff c.id r.id).0 f) in cc
    ]
