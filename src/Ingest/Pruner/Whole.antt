-- ===== src/Ingest/Pruner/Whole.antt =====
-- A run of the pruner, `pruneOldCalls` of backend/internal/audio/pruner.go, as a whole.
use open_scanner.Base.{
  ℕ, leb_ℤ, any, ◌==◌, ◌||◌, ◌&&◌, if◌then◌else◌, ◌<◌, ◌≡◌, refl, sym, ap, ◌∙◌, inl, inr, Bool,
  true, false, not, some, String, List, [], ◌∷◌, length, keep, ltb_ℤ, ℤ, pos, Member,
}
use open_scanner.Ingest.Tables.{Call, Db, q_get_setting}
use open_scanner.Ingest.Pruner.Rounds.{Works, Removed}
use open_scanner.Ingest.Pruner.{PruneEnv, PruneState, prune_old_calls}
use open_scanner.Ingest.Pruner.Ends.{IsKeyed, remains, Rest, prune_loop-LoopEnds}

-- Not older than the cut-off, or named by a bookmark or a shared link.
abbrev pub stays : Db → ℤ → Call → Bool
stays db cutoff c =
    leb_ℤ cutoff c.date_time
    || any (λ b. b.call_id == c.id) db.bookmarks
    || any (λ id. id == c.id) db.shared_links

-- Exactly the calls that stay are left and no other table of the model has changed; a file that was
-- removed is that of a call that does not stay, and passes the test that it is below the recordings
-- directory.
pub record Pruned (env : PruneEnv) (cutoff : ℤ) (s s' : PruneState) : Type 0 where
  pub db : s'.db ≡ record s.db { calls = keep (stays s.db cutoff) s.db.calls }
  pub removed :
      (path : String)
      → Member path s'.removed
      → Removed env s.removed (λ c. Member c s.db.calls × (stays s.db cutoff c ≡ false)) path

keep-same : (p q : Call → Bool) (cs : List Call) → ((c : Call) → p c ≡ q c) → keep p cs ≡ keep q cs
keep-same p q [] h = refl
keep-same p q (c ∷ cs) h = rw (h c) (ap (λ l. if q c then c ∷ l else l) (keep-same p q cs h))

stays-same :
    (older bookmarked shared : Bool)
    → not (older && not bookmarked && not shared) ≡ (not older || bookmarked || shared)
stays-same true true true = refl
stays-same true true false = refl
stays-same true false true = refl
stays-same true false false = refl
stays-same false bookmarked shared = refl

remains-stays : (db : Db) (cutoff : ℤ) (c : Call) → remains db cutoff c ≡ stays db cutoff c
remains-stays db cutoff c = stays-same _ _ _

Rest-Pruned :
    (env : PruneEnv) (cutoff : ℤ) (s s' : PruneState)
    → Rest env cutoff s s'
    → Pruned env cutoff s s'
Rest-Pruned env cutoff s s' r = record {
  db =
      r.db
      ∙ ap {A = List Call} {B = Db} (λ l. record s.db { calls = l })
          (keep-same (remains s.db cutoff) (stays s.db cutoff) s.db.calls
            (remains-stays s.db cutoff));
  removed = λ path m. elim (r.removed path m) [
    | inl k ↦ inl k
    | inr (c, (k, e), q, w) ↦ inr (c, (k, sym (remains-stays s.db cutoff c) ∙ ap not e), q, w)
  ];
}

-- A run of the pruner ends: with all its queries working, `id` a key of the calls, a setting
-- `pruneDays` that is a number above 0, and fuel for one round more than there are calls, it has a
-- result. The calls are then those that are not older than the cut-off or that a bookmark or a
-- shared link names, in the same order, no other table of the model has changed, and each file that
-- was removed is that of a call that was pruned and passes the test that it lies below the
-- recordings directory.
pub prune_old_calls-Pruned :
    (env : PruneEnv) (s : PruneState) (fuel : ℕ) (value : String) (days : ℤ)
    → Works env
    → IsKeyed s.db.calls
    → length s.db.calls < fuel
    → env.fails (q_get_setting "pruneDays") ≡ false
    → s.db.settings "pruneDays" ≡ some value
    → env.parse_int value ≡ some days
    → ltb_ℤ (pos 0) days ≡ true
    → (s' : PruneState) × (prune_old_calls fuel env s ≡ some s') × Pruned env (env.cutoff days) s s'
unfolding prune_old_calls
prune_old_calls-Pruned env s fuel value days works keyed enough readable set number above =
    let (s', e, rest) = prune_loop-LoopEnds fuel env (env.cutoff days) 0 s works keyed enough in
    (s', rw (readable, set, number, above) e, Rest-Pruned env (env.cutoff days) s s' rest)
