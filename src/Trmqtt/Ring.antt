-- ===== src/Trmqtt/Ring.antt =====
-- `Ring` of backend/internal/trmqtt/ringbuf.go. Every method holds the mutex. An index out of range
-- would panic in Go; here it reads `none`.
pub mod Refines
use open_scanner.Base.{
  ℕ, zero, suc, ◌+◌, ◌-◌, ◌%◌, Bool, Option, none, some, List, [], ◌∷◌, ◌==◌, ltb, if◌then◌else◌,
  set, replicate, get_elem?,
}

pub record Ring {ℓ} (A : Type ℓ) : Type ℓ where
  pub buf : List A
  pub cap : ℕ
  pub head : ℕ
  pub count : ℕ

abbrev pub clamped : ℕ → ℕ
clamped cap_n = if ltb cap_n 1 then 1 else cap_n

module _ {ℓ} {A : Type ℓ} where
  -- `make([]T, capN)` fills the buffer with the type's zero value.
  unfoldable pub new_ring : A → ℕ → Ring A
  new_ring zero_value cap_n = record {
    buf = replicate (clamped cap_n) zero_value;
    cap = clamped cap_n;
    head = 0;
    count = 0;
  }

  unfoldable pub push : Ring A → A → Ring A
  push r v = record r {
    buf = set r.buf r.head v;
    head = (r.head + 1) % r.cap;
    count = if ltb r.count r.cap then r.count + 1 else r.count;
  }

  -- The loop of `Snapshot` from round `i`, with `n` rounds left.
  unfoldable pub read : Ring A → ℕ → ℕ → ℕ → List (Option A)
  read r start i zero = []
  read r start i (suc n) = get_elem? r.buf ((start + i) % r.cap) ∷ read r start (i + 1) n

  unfoldable pub snapshot : Ring A → List (Option A)
  unfolding read
  snapshot r =
      if r.count == 0
      then []
      else let start = (r.head + r.cap - r.count) % r.cap in read r start 0 r.count

  -- `Len`
  abbrev pub len : Ring A → ℕ
  len r = r.count

  unfoldable pub push_all : Ring A → List A → Ring A
  push_all r [] = r
  push_all r (v ∷ vs) = push_all (push r v) vs
