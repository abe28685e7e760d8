-- ===== src/Base/Lists.antt =====
-- Lists measured and cut by native numbers, and predicates on lists.
use Prim.Native.Nat.{ℕ, zero, suc, ◌+◌, ◌-◌, ◌≤◌, ◌<◌}
use mathlib.Core.Path.{◌≡◌, refl, ap}
use mathlib.Core.List.{List, [], ◌∷◌, ◌++◌}
use mathlib.Core.Option.{Option, none, some}
use mathlib.Core.Bool.{Bool, false, ◌||◌}
use native.Mathlib.Omega.{arith}
use open_scanner.Base.Tests.{if◌then◌else◌}

module _ {ℓ} {A : Type ℓ} where
  abbrev pub length : List A → ℕ
  length [] = 0
  length (x ∷ xs) = suc (length xs)

  abbrev pub get_elem? : List A → ℕ → Option A
  get_elem? [] i = none
  get_elem? (x ∷ xs) zero = some x
  get_elem? (x ∷ xs) (suc i) = get_elem? xs i

  abbrev pub drop : ℕ → List A → List A
  drop zero xs = xs
  drop (suc n) [] = []
  drop (suc n) (x ∷ xs) = drop n xs

  abbrev pub take : ℕ → List A → List A
  take zero xs = []
  take (suc n) [] = []
  take (suc n) (x ∷ xs) = x ∷ take n xs

  -- The elements that pass a Boolean test, in order.
  abbrev pub keep : (A → Bool) → List A → List A
  keep p [] = []
  keep p (x ∷ xs) = if p x then x ∷ keep p xs else keep p xs

  -- Some element passes.
  abbrev pub any : (A → Bool) → List A → Bool
  any p [] = false
  any p (x ∷ xs) = p x || any p xs

  pub length-append : (xs ys : List A) → length (xs ++ ys) ≡ length xs + length ys
  length-append [] ys = omega arith
  length-append (x ∷ xs) ys = omega (arith, length-append xs ys)

  pub length-drop : (n : ℕ) (xs : List A) → length (drop n xs) ≡ length xs - n
  length-drop zero xs = omega arith
  length-drop (suc n) [] = omega arith
  length-drop (suc n) (x ∷ xs) = omega (arith, length-drop n xs)

  pub length-keep-le : (p : A → Bool) (xs : List A) → length (keep p xs) ≤ length xs
  length-keep-le p [] = omega arith
  length-keep-le p (x ∷ xs) = ground (arith, length-keep-le p xs)

-- Every element satisfies `P`; it computes to nested pairs, which the tactics read and build.
abbrev pub All {ℓ κ} : {A : Type ℓ} → (A → Type κ) → List A → Type κ
All P [] = Unit
All P (x ∷ xs) = P x × All P xs

suc_add : (m n : ℕ) → suc m + n ≡ suc (m + n)
suc_add m n = omega arith

module _ {ℓ} {A : Type ℓ} where
  -- A write out of bounds changes nothing.
  abbrev pub set : List A → ℕ → A → List A
  set [] i v = []
  set (x ∷ xs) zero v = v ∷ xs
  set (x ∷ xs) (suc i) v = x ∷ set xs i v

  abbrev pub replicate : ℕ → A → List A
  replicate zero a = []
  replicate (suc n) a = a ∷ replicate n a

  pub length-replicate : (n : ℕ) (a : A) → length (replicate n a) ≡ n
  length-replicate zero a = omega arith
  length-replicate (suc n) a = omega (arith, length-replicate n a)

  -- A write behind a first part.
  pub set-append : (xs ys : List A) (y v : A) → set (xs ++ (y ∷ ys)) (length xs) v ≡ xs ++ (v ∷ ys)
  set-append [] ys y v = ap (λ t. t) refl
  set-append (x ∷ xs) ys y v = ap (λ t. x ∷ t) (set-append xs ys y v)

  -- A read in the first part, and one behind it.
  pub get_elem?-append_left :
      (xs ys : List A) (i : ℕ) → i < length xs → get_elem? (xs ++ ys) i ≡ get_elem? xs i
  get_elem?-append_left [] ys i h = elim h [ ]
  get_elem?-append_left (x ∷ xs) ys zero h = refl
  get_elem?-append_left (x ∷ xs) ys (suc i) h = get_elem?-append_left xs ys i (omega arith)

  pub get_elem?-append_at :
      (xs ys : List A) (y : A) → get_elem? (xs ++ (y ∷ ys)) (length xs) ≡ some y
  get_elem?-append_at [] ys y = refl
  get_elem?-append_at (x ∷ xs) ys y = get_elem?-append_at xs ys y

  pub get_elem?-append_right :
      (xs ys : List A) (i : ℕ) → get_elem? (xs ++ ys) (length xs + i) ≡ get_elem? ys i
  get_elem?-append_right [] ys i = ap (get_elem? ys) (omega arith)
  get_elem?-append_right (x ∷ xs) ys i = rw (suc_add (length xs) i) (get_elem?-append_right xs ys i)

  pub drop-append_of_le :
      (n : ℕ) (xs ys : List A) → n ≤ length xs → drop n (xs ++ ys) ≡ drop n xs ++ ys
  drop-append_of_le zero xs ys h = refl
  drop-append_of_le (suc n) [] ys h = elim h [ ]
  drop-append_of_le (suc n) (x ∷ xs) ys h = drop-append_of_le n xs ys (omega arith)

  -- One more element dropped.
  pub drop-suc : (n : ℕ) (xs ys : List A) (y : A) → drop n xs ≡ y ∷ ys → drop (suc n) xs ≡ ys
  drop-suc zero [] ys y h = cc
  drop-suc zero (x ∷ xs) ys y h = cc
  drop-suc (suc n) [] ys y h = cc
  drop-suc (suc n) (x ∷ xs) ys y h = drop-suc n xs ys y h

  pub length-take : (n : ℕ) (xs : List A) → n ≤ length xs → length (take n xs) ≡ n
  length-take zero xs le = refl
  length-take (suc n) [] le = elim le [ ]
  length-take (suc n) (x ∷ xs) le = omega (arith, length-take n xs (omega arith))

  -- A cut behind the first part.
  pub take-append : (xs ys : List A) → take (length xs) (xs ++ ys) ≡ xs
  take-append [] ys = refl
  take-append (x ∷ xs) ys = ap (λ t. x ∷ t) (take-append xs ys)

  pub drop-append : (xs ys : List A) → drop (length xs) (xs ++ ys) ≡ ys
  drop-append [] ys = refl
  drop-append (x ∷ xs) ys = drop-append xs ys

  -- What is found stands in range.
  pub get_elem?-lt : (xs : List A) (i : ℕ) (a : A) → get_elem? xs i ≡ some a → i < length xs
  get_elem?-lt [] i a e = cc
  get_elem?-lt (x ∷ xs) zero a e = omega arith
  get_elem?-lt (x ∷ xs) (suc i) a e = omega (arith, get_elem?-lt xs i a e)

module _ {ℓ κ} {A : Type ℓ} (P : A → Type κ) where
  pub All-append : (xs ys : List A) → All P xs → All P ys → All P (xs ++ ys)
  All-append [] ys px py = py
  All-append (x ∷ xs) ys (p, px) py = (p, All-append xs ys px py)

  pub All-drop : (n : ℕ) (xs : List A) → All P xs → All P (drop n xs)
  All-drop zero xs px = px
  All-drop (suc n) [] px = px
  All-drop (suc n) (x ∷ xs) (p, px) = All-drop n xs px

  pub All-map {υ} : (Q : A → Type υ) (xs : List A) → ((a : A) → P a → Q a) → All P xs → All Q xs
  All-map Q [] h px = tt
  All-map Q (x ∷ xs) h (p, px) = (h x p, All-map Q xs h px)
