-- ===== src/Archive/Bookmarks/Marks.antt =====
-- Setting and clearing one bookmark, as the queries of backend/internal/db/bookmarks.sql.go do.
use open_scanner.Base.{
  ℕ, Bool, true, false, not, ◌&&◌, ◌||◌, ◌≡◌, inl, inr, refl, ap, Option, none, some, List, [], ◌∷◌,
  ◌++◌, ◌==◌, any, keep, Bool-cases, arith,
}
use open_scanner.Ingest.Tables.{BookmarkRow}
use open_scanner.Archive.Rows.{is_owner}
use open_scanner.Archive.Bookmarks.{is_mark}

-- The pair at hand.
abbrev pub is_pair : ℕ → ℕ → ℕ → ℕ → Bool
is_pair call user c u = (call == c) && (user == u)

or_later : (x y z w : Bool) → y ≡ (z || w) → (x || y) ≡ ((x || z) || w)
or_later true y z w e = refl
or_later false y z w e = e

or_false : (x : Bool) → (x || false) ≡ x
or_false true = refl
or_false false = refl

pub any-snoc :
    (call user c u : ℕ) (bs : List BookmarkRow)
    → any (is_mark c u) (bs ++ (record { call_id = call; user_id = some user } ∷ []))
      ≡ (any (is_mark c u) bs || is_pair call user c u)
any-snoc call user c u [] = or_false (is_pair call user c u)
any-snoc call user c u (b ∷ bs) = or_later (is_mark c u b) _ _ _ (any-snoc call user c u bs)

-- One bookmark is of one pair.
is_mark-is_pair :
    (call user c u i : ℕ) (o : Option ℕ)
    → ((i == call) && is_owner user o) ≡ true
    → ((i == c) && is_owner u o) ≡ is_pair call user c u
is_mark-is_pair call user c u i none h = ground arith
is_mark-is_pair call user c u i (some v) h = ground arith

is_mark-apart :
    (call user c u i : ℕ) (o : Option ℕ)
    → ((i == call) && is_owner user o) ≡ false
    → (((i == c) && is_owner u o) && not (is_pair call user c u)) ≡ ((i == c) && is_owner u o)
is_mark-apart call user c u i none h = ground arith
is_mark-apart call user c u i (some v) h = ground arith

and_distributes : (x y z : Bool) → ((x || y) && z) ≡ ((x && z) || (y && z))
and_distributes true y true = refl
and_distributes true true false = refl
and_distributes true false false = refl
and_distributes false y z = refl

and_not : (x : Bool) → (x && not x) ≡ false
and_not true = refl
and_not false = refl

pub any-clear :
    (call user c u : ℕ) (bs : List BookmarkRow)
    → any (is_mark c u) (keep (λ b. not (is_mark call user b)) bs)
      ≡ (any (is_mark c u) bs && not (is_pair call user c u))
any-clear call user c u [] = refl
any-clear call user c u (b ∷ bs) = elim (Bool-cases (is_mark call user b)) [
  | inl e ↦
      rw
        (
          e,
          is_mark-is_pair call user c u b.call_id b.user_id e,
          and_distributes (is_pair call user c u) (any (is_mark c u) bs)
              (not (is_pair call user c u)),
          and_not (is_pair call user c u),
        )
        (any-clear call user c u bs)
  | inr e ↦
      rw
        (
          e,
          and_distributes (is_mark c u b) (any (is_mark c u) bs) (not (is_pair call user c u)),
          is_mark-apart call user c u b.call_id b.user_id e,
        )
        (ap (λ x. is_mark c u b || x) (any-clear call user c u bs))
]
