-- ===== src/Base/Members.antt =====
-- Membership in lists, and lists cut by a test or a length.
use Prim.Native.Nat.{ℕ, zero, suc, ◌<◌}
use mathlib.Core.Path.{◌≡◌, refl, sym, ap, subst}
use mathlib.Core.Logic.{◌⊎◌, inl, inr}
use mathlib.Core.Bool.{Bool, true, false}
use mathlib.Core.List.{List, [], ◌∷◌}
use native.Mathlib.Omega.{arith}
use open_scanner.Base.Tests.{Bool-cases}
use open_scanner.Base.Lists.{length, take, keep, All, length-keep-le}

-- `x` stands in the list.
abbrev pub Member : {A : Type 0} → A → List A → Type 0
Member x [] = ⊥
Member x (y ∷ ys) = (x ≡ y) ⊎ Member x ys

module _ {A : Type 0} where
  pub All-Member : (P : A → Type 0) (xs : List A) (x : A) → All P xs → Member x xs → P x
  All-Member P [] x ps m = absurd m
  All-Member P (y ∷ ys) x (p, ps) (inl e) = subst P (sym e) p
  All-Member P (y ∷ ys) x (p, ps) (inr m) = All-Member P ys x ps m

  -- Facts about each member are facts about all.
  pub Member-All : {P : A → Type 0} (xs : List A) → ((x : A) → Member x xs → P x) → All P xs
  Member-All [] h = tt
  Member-All (x ∷ xs) h = (h x (inl refl), Member-All xs (λ y m. h y (inr m)))

  pub Member-keep :
      (p : A → Bool) (xs : List A) (x : A) → Member x (keep p xs) → Member x xs × (p x ≡ true)
  Member-keep p [] x m = absurd m
  Member-keep p (y ∷ ys) x m = elim (Bool-cases (p y)) [
    | inl e ↦ passed e (Member-keep p ys x) (rw e at m)
    | inr e ↦ let (k, q) = Member-keep p ys x (rw e at m) in (inr k, q)
  ]
    where
      passed :
          p y ≡ true
          → (Member x (keep p ys) → Member x ys × (p x ≡ true))
          → Member x (y ∷ keep p ys)
          → Member x (y ∷ ys) × (p x ≡ true)
      passed e later (inl same) = (inl same, rw same e)
      passed e later (inr k) = let (k', q) = later k in (inr k', q)

  pub keep-Member :
      (p : A → Bool) (xs : List A) (x : A) → Member x xs → p x ≡ true → Member x (keep p xs)
  keep-Member p [] x m e = absurd m
  keep-Member p (y ∷ ys) x (inl same) e = rw (← same, e) (inl refl)
  keep-Member p (y ∷ ys) x (inr m) e = elim (Bool-cases (p y)) [
    | inl q ↦ rw q (inr (keep-Member p ys x m e))
    | inr q ↦ rw q (keep-Member p ys x m e)
  ]

  pub Member-take : (n : ℕ) (xs : List A) (x : A) → Member x (take n xs) → Member x xs
  Member-take zero xs x m = absurd m
  Member-take (suc n) [] x m = absurd m
  Member-take (suc n) (y ∷ ys) x (inl e) = inl e
  Member-take (suc n) (y ∷ ys) x (inr m) = inr (Member-take n ys x m)

  -- A cut that comes out shorter has cut nothing.
  pub take-short : (n : ℕ) (xs : List A) → length (take n xs) < n → take n xs ≡ xs
  take-short zero xs h = elim h [ ]
  take-short (suc n) [] h = refl
  take-short (suc n) (x ∷ xs) h = ap (λ t. x ∷ t) (take-short n xs (omega arith))

  pub keep-All : (p : A → Bool) (xs : List A) → All (λ x. p x ≡ true) xs → keep p xs ≡ xs
  keep-All p [] h = refl
  keep-All p (x ∷ xs) (e, h) = rw e (ap (λ t. x ∷ t) (keep-All p xs h))

  -- A member that fails the test makes the list shorter.
  pub length-keep-lt :
      (p : A → Bool) (xs : List A) (x : A)
      → Member x xs
      → p x ≡ false
      → length (keep p xs) < length xs
  length-keep-lt p [] x m e = absurd m
  length-keep-lt p (y ∷ ys) x (inl same) e =
      let q : p y ≡ false = rw same at e in rw q (omega (arith, length-keep-le p ys))
  length-keep-lt p (y ∷ ys) x (inr m) e = ground (arith, length-keep-lt p ys x m e)

  -- The tests agree on the members.
  pub keep-keep :
      (p q : A → Bool) (xs : List A)
      → ((x : A) → Member x xs → p x ≡ true → q x ≡ true)
      → keep p (keep q xs) ≡ keep p xs
  keep-keep p q [] h = refl
  keep-keep p q (x ∷ xs) h = elim (Bool-cases (p x)) [
    | inl e ↦ rw (h x (inl refl) e, e) (ap (λ t. x ∷ t) (keep-keep p q xs (λ y m. h y (inr m))))
    | inr e ↦ elim (Bool-cases (q x)) [
      | inl f ↦ rw (f, e) (keep-keep p q xs (λ y m. h y (inr m)))
      | inr f ↦ rw (f, e) (keep-keep p q xs (λ y m. h y (inr m)))
    ]
  ]
