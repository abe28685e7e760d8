-- ===== src/Ingest/Duplicate/Apart.antt =====
-- What the duplicate check, backend/internal/audio/duplicate.go, keeps out of the table of calls.
use open_scanner.Base.{
  ℕ, ◌+◌, ◌-◌, ◌<◌, ◌≡◌, refl, ◌∙◌, inl, inr, Bool, true, false, ◌&&◌, ◌||◌, some, List, [], ◌∷◌,
  ◌++◌, lt→ltb, ==_iff, arith, ℤ, pos, negsuc, ◌+ℤ◌, neg_ℕ, leb_ℤ, int64, IsInt64, int64-in_range,
  All, any, Bool-cases,
}
use open_scanner.Ingest.Tables.{Call, Db, Faults, q_at_timestamp, q_in_range}
use open_scanner.Ingest.Rows.{is_call_at, is_call_in, has_call_in_time_range, has_call_at_timestamp}
use open_scanner.Ingest.Duplicate.{is_duplicate, window_sec}

-- The distance of two times.
abbrev pub gap : ℤ → ℤ → ℕ
gap (pos a) (pos b) = (a - b) + (b - a)
gap (negsuc a) (negsuc b) = (a - b) + (b - a)
gap (pos a) (negsuc b) = a + b + 1
gap (negsuc a) (pos b) = a + b + 1

-- Of two calls of one talkgroup, more than `w` seconds.
abbrev pub Apart : ℕ → Call → Call → Type 0
Apart w c d =
    c.system_id ≡ d.system_id → c.talkgroup_id ≡ d.talkgroup_id → w < gap c.date_time d.date_time

abbrev pub AreApart : ℕ → List Call → Type 0
AreApart w [] = Unit
AreApart w (c ∷ cs) = All (Apart w c) cs × AreApart w cs

out_of_range-gap :
    (d t : ℤ) (w : ℕ) → (leb_ℤ (t +ℤ neg_ℕ w) d && leb_ℤ d (t +ℤ pos w)) ≡ false → w < gap d t
out_of_range-gap (pos d) (pos t) w h = ground arith
out_of_range-gap (pos d) (negsuc t) w h = ground arith
out_of_range-gap (negsuc d) (pos t) w h = ground arith
out_of_range-gap (negsuc d) (negsuc t) w h = ground arith

none_in_range :
    (w system talkgroup : ℕ) (t : ℤ) (c : Call) (cs : List Call)
    → c.system_id ≡ system
    → c.talkgroup_id ≡ talkgroup
    → c.date_time ≡ t
    → any (is_call_in system talkgroup (t +ℤ neg_ℕ w) (t +ℤ pos w)) cs ≡ false
    → All (λ d. Apart w d c) cs
none_in_range w system talkgroup t c [] own own' at h = tt
none_in_range w system talkgroup t c (d ∷ cs) own own' at h = (
  λ e e'. rw at (
      out_of_range-gap d.date_time t w (
        not_passed d (e ∙ own) (e' ∙ own')
          (first_false (is_call_in system talkgroup (t +ℤ neg_ℕ w) (t +ℤ pos w) d) _ h))),
  none_in_range w system talkgroup t c cs own own' at
      (rest_false (is_call_in system talkgroup (t +ℤ neg_ℕ w) (t +ℤ pos w) d) _ h),
)
  where
    first_false : (a b : Bool) → (a || b) ≡ false → a ≡ false
    first_false true b k = k
    first_false false b k = refl

    rest_false : (a b : Bool) → (a || b) ≡ false → b ≡ false
    rest_false true b k = cc
    rest_false false b k = k

    not_passed :
        (d : Call)
        → d.system_id ≡ system
        → d.talkgroup_id ≡ talkgroup
        → is_call_in system talkgroup (t +ℤ neg_ℕ w) (t +ℤ pos w) d ≡ false
        → (leb_ℤ (t +ℤ neg_ℕ w) d.date_time && leb_ℤ d.date_time (t +ℤ pos w)) ≡ false
    not_passed d e e' k =
        rw ((==_iff d.system_id system).1 e, (==_iff d.talkgroup_id talkgroup).1 e') at k

pub AreApart-append :
    (w : ℕ) (cs : List Call) (c : Call)
    → AreApart w cs
    → All (λ d. Apart w d c) cs
    → AreApart w (cs ++ (c ∷ []))
AreApart-append w [] c h k = (tt, tt)
AreApart-append w (d ∷ cs) c (first, rest) (a, rest_apart) =
    (All-snoc cs first a, AreApart-append w cs c rest rest_apart)
  where
    All-snoc :
        (ds : List Call) → All (Apart w d) ds → Apart w d c → All (Apart w d) (ds ++ (c ∷ []))
    All-snoc [] h k = (k, tt)
    All-snoc (x ∷ ds) (h, hs) k = (h, All-snoc ds hs k)

-- The bounds of the window around a time do not wrap.
abbrev pub IsWithin : ℕ → ℤ → Type 0
IsWithin w t = IsInt64 (t +ℤ neg_ℕ w) × IsInt64 (t +ℤ pos w)

-- What the check lets through is apart from all calls of the table.
pub is_duplicate-Apart :
    (fails : Faults) (db : Db) (c : Call) (n : ℕ)
    → fails q_at_timestamp ≡ false
    → fails q_in_range ≡ false
    → 0 < n
    → IsWithin (window_sec n) c.date_time
    → is_duplicate fails db c.system_id c.talkgroup_id c.date_time (pos n) ≡ some false
    → All (λ d. Apart (window_sec n) d c) db.calls
unfolding is_duplicate has_call_at_timestamp has_call_in_time_range
is_duplicate-Apart fails db c n f f' above (low, high) h =
    none_in_range (window_sec n) c.system_id c.talkgroup_id c.date_time c db.calls refl refl refl
      (elim (Bool-cases (any (is_call_at c.system_id c.talkgroup_id c.date_time) db.calls)) [
        | inl e ↦ let k : some true ≡ some false = rw (f, e, lt→ltb 0 n above) at h in cc
        | inr e ↦
            let k : some (
                  any
                    (is_call_in c.system_id c.talkgroup_id (c.date_time +ℤ neg_ℕ (window_sec n))
                      (c.date_time +ℤ pos (window_sec n)))
                    db.calls)
                ≡ some false =
              rw (f, e, lt→ltb 0 n above, f', int64-in_range _ low, int64-in_range _ high) at h in
            cc
      ])

-- The check has an answer.
pub is_duplicate-answers :
    (fails : Faults) (db : Db) (system talkgroup : ℕ) (t : ℤ) (n : ℕ)
    → fails q_at_timestamp ≡ false
    → fails q_in_range ≡ false
    → 0 < n
    → (b : Bool) × (is_duplicate fails db system talkgroup t (pos n) ≡ some b)
unfolding is_duplicate has_call_at_timestamp has_call_in_time_range
is_duplicate-answers fails db system talkgroup t n f f' above =
    elim (Bool-cases (any (is_call_at system talkgroup t) db.calls)) [
      | inl e ↦ (true, rw (f, e, lt→ltb 0 n above) refl)
      | inr e ↦ (
        any
            (is_call_in system talkgroup (int64 (t +ℤ neg_ℕ (window_sec n)))
              (int64 (t +ℤ pos (window_sec n))))
            db.calls,
        rw (f, e, lt→ltb 0 n above, f') refl,
      )
    ]
