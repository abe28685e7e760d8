-- ===== src/Middleware/ApiKey/Shape.antt =====
-- The texts that `looksLikeJWT` of backend/internal/middleware/auth.go accepts.
use open_scanner.Base.{
  ℕ, suc, ◌≤◌, ◌≡◌, ◌↔◌, ◌∙◌, refl, ap, ◌⊎◌, inl, inr, true, false, arith, List, [], ◌∷◌, ◌++◌,
  ◌==◌, Bool-cases, All,
}
use open_scanner.Middleware.ApiKey.{
  count_dots, split_dots, all_filled, has_jwt_shape, is_empty_part,
}

-- No dot.
abbrev pub DotFree : List ℕ → Type 0
DotFree = All (λ c. (c == b'.') ≡ false)

-- A non-empty segment.
abbrev pub IsSegment : List ℕ → Type 0
IsSegment s = DotFree s × (is_empty_part s ≡ false)

split_dots-free : (a : List ℕ) → DotFree a → split_dots a ≡ a ∷ []
unfolding split_dots
split_dots-free [] f = refl
split_dots-free (c ∷ a) f = rw (f.0, split_dots-free a f.1)

split_dots-append : (a r : List ℕ) → DotFree a → split_dots (a ++ (b'.' ∷ r)) ≡ a ∷ split_dots r
unfolding split_dots
split_dots-append [] r f = refl
split_dots-append (c ∷ a) r f = rw (f.0, split_dots-append a r f.1)

count_dots-free : (a : List ℕ) → DotFree a → count_dots a ≡ 0
unfolding count_dots
count_dots-free [] f = refl
count_dots-free (c ∷ a) f = ground (arith, f.0, count_dots-free a f.1)

count_dots-append : (a r : List ℕ) → DotFree a → count_dots (a ++ (b'.' ∷ r)) ≡ suc (count_dots r)
unfolding count_dots
count_dots-append [] r f = omega arith
count_dots-append (c ∷ a) r f = ground (arith, f.0, count_dots-append a r f.1)

-- The first dot, if there is one.
first_dot :
    (s : List ℕ) → DotFree s ⊎ ((a : List ℕ) × (r : List ℕ) × (s ≡ a ++ (b'.' ∷ r)) × DotFree a)
first_dot [] = inl tt
first_dot (c ∷ s) = elim (Bool-cases (c == b'.')) [
  | inl dot ↦ inr ([], s, ground arith, tt)
  | inr plain ↦ elim (first_dot s) [
    | inl f ↦ inl (plain, f)
    | inr (a, r, e, f) ↦ inr (c ∷ a, r, ap (λ t. c ∷ t) e, (plain, f))
  ]
]

-- Three segments between two dots.
abbrev pub IsThreeParts : List ℕ → Type 0
IsThreeParts s =
    (a : List ℕ) × (b : List ℕ) × (c : List ℕ) × (s ≡ a ++ (b'.' ∷ (b ++ (b'.' ∷ c))))
    × IsSegment a
    × IsSegment b
    × IsSegment c

split_dots-three :
    (a b c : List ℕ)
    → DotFree a
    → DotFree b
    → DotFree c
    → split_dots (a ++ (b'.' ∷ (b ++ (b'.' ∷ c)))) ≡ a ∷ b ∷ c ∷ []
split_dots-three a b c fa fb fc =
    split_dots-append a _ fa
    ∙ ap (λ t. a ∷ t) (split_dots-append b c fb ∙ ap (λ t. b ∷ t) (split_dots-free c fc))

count_dots-three :
    (a b c : List ℕ)
    → DotFree a
    → DotFree b
    → DotFree c
    → count_dots (a ++ (b'.' ∷ (b ++ (b'.' ∷ c)))) ≡ 2
count_dots-three a b c fa fb fc = omega (
  arith,
  count_dots-append a (b ++ (b'.' ∷ c)) fa,
  count_dots-append b c fb,
  count_dots-free c fc,
)

-- A text with two dots is three dot-free pieces.
two_dots :
    (s : List ℕ)
    → count_dots s ≡ 2
    → (a : List ℕ) × (b : List ℕ) × (c : List ℕ) × (s ≡ a ++ (b'.' ∷ (b ++ (b'.' ∷ c))))
      × DotFree a
      × DotFree b
      × DotFree c
two_dots s h = elim (first_dot s) [
  | inl f ↦ absurd (omega (arith, count_dots-free s f))
  | inr (a, r, e, fa) ↦ elim (first_dot r) [
    | inl f ↦ absurd (one a r e fa (count_dots-free r f))
    | inr (b, c, e', fb) ↦ elim (first_dot c) [
      | inl fc ↦ (a, b, c, e ∙ ap (λ t. a ++ (b'.' ∷ t)) e', fa, fb, fc)
      | inr (d, r', e'', fd) ↦ absurd (three a r b c d r' e fa e' fb e'' fd)
    ]
  ]
]
  where
    one : (a r : List ℕ) → s ≡ a ++ (b'.' ∷ r) → DotFree a → count_dots r ≡ 0 → ⊥
    one a r e fa z = omega (arith, ap count_dots e, count_dots-append a r fa)

    three :
        (a r b c d r' : List ℕ)
        → s ≡ a ++ (b'.' ∷ r)
        → DotFree a
        → r ≡ b ++ (b'.' ∷ c)
        → DotFree b
        → c ≡ d ++ (b'.' ∷ r')
        → DotFree d
        → ⊥
    three a r b c d r' e fa e' fb e'' fd = omega (
      arith,
      ap count_dots e,
      ap count_dots e',
      ap count_dots e'',
      count_dots-append a r fa,
      count_dots-append b c fb,
      count_dots-append d r' fd,
    )

all_filled-three :
    (a b c : List ℕ)
    → all_filled (a ∷ b ∷ c ∷ []) ≡ true
    → (is_empty_part a ≡ false) × (is_empty_part b ≡ false) × (is_empty_part c ≡ false)
unfolding all_filled
all_filled-three a b c h = ground arith

three-all_filled :
    (a b c : List ℕ)
    → is_empty_part a ≡ false
    → is_empty_part b ≡ false
    → is_empty_part c ≡ false
    → all_filled (a ∷ b ∷ c ∷ []) ≡ true
unfolding all_filled
three-all_filled a b c x y z = ground arith

shape_tests :
    (size : ℕ) (s : List ℕ)
    → has_jwt_shape size s ≡ true
    → (20 ≤ size) × (count_dots s ≡ 2) × (all_filled (split_dots s) ≡ true)
unfolding has_jwt_shape
shape_tests size s h = ground arith

shape_holds :
    (size : ℕ) (s : List ℕ)
    → 20 ≤ size
    → count_dots s ≡ 2
    → all_filled (split_dots s) ≡ true
    → has_jwt_shape size s ≡ true
unfolding has_jwt_shape
shape_holds size s big two filled = ground arith

-- `looksLikeJWT` accepts exactly the texts of at least twenty bytes that are three non-empty
-- segments without dots, joined by two dots.
pub has_jwt_shape_iff :
    (size : ℕ) (s : List ℕ) → (has_jwt_shape size s ≡ true) ↔ ((20 ≤ size) × IsThreeParts s)
has_jwt_shape_iff size s = (forth, back)
  where
    forth : has_jwt_shape size s ≡ true → (20 ≤ size) × IsThreeParts s
    forth h =
        let (big, two, filled) = shape_tests size s h in
        let (a, b, c, e, fa, fb, fc) = two_dots s two in
        let split : split_dots s ≡ a ∷ b ∷ c ∷ [] =
          ap split_dots e ∙ split_dots-three a b c fa fb fc in
        let (na, nb, nc) = all_filled-three a b c (rw split at filled) in
        (big, (a, b, c, e, (fa, na), (fb, nb), (fc, nc)))

    back : (20 ≤ size) × IsThreeParts s → has_jwt_shape size s ≡ true
    back (big, (a, b, c, e, (fa, na), (fb, nb), (fc, nc))) =
        shape_holds size s big (ap count_dots e ∙ count_dots-three a b c fa fb fc) (
          ap all_filled (ap split_dots e ∙ split_dots-three a b c fa fb fc)
          ∙ three-all_filled a b c na nb nc)
