-- ===== src/Trmqtt/Ring/Refines.antt =====
-- `Ring` of backend/internal/trmqtt/ringbuf.go as a window on the sequence of pushed entries.
use native.Mathlib.Nat.{mod-eq_of_lt, mod_self, add-mod_right}
use open_scanner.Base.{
  ℕ, suc, ◌+◌, ◌-◌, ◌%◌, ◌≤◌, ◌<◌, ◌≡◌, refl, sym, ap, ◌∙◌, ◌⊎◌, inl, inr, false, some, List, [],
  ◌∷◌, ◌++◌, map, arith, ◌==◌, length, drop, replicate, get_elem?, length-append, length-replicate,
  set-append, get_elem?-append_left, get_elem?-append_right, drop-append_of_le, drop-suc,
  append_assoc, append-nil,
}
use open_scanner.Trmqtt.Ring.{Ring, clamped, new_ring, push, push_all, read, snapshot}

-- The last `n` elements.
abbrev pub newest {ℓ} : {A : Type ℓ} → ℕ → List A → List A
newest n xs = drop (length xs - n) xs

-- The buffer is cut at the head: `newer` was written since the head was last at 0, and `older`
-- is either untouched, while the ring fills up, or the oldest entries of a full ring.
record Holds {ℓ} {A : Type ℓ} (r : Ring A) (h newer older : List A) : Type ℓ where
  cut : r.buf ≡ newer ++ older
  sized : length newer + length older ≡ r.cap
  at_head : length newer ≡ r.head
  room : 0 < length older
  filled :
      ((h ≡ newer) × (r.count ≡ length newer))
      ⊎ ((newest r.cap h ≡ older ++ newer) × (r.count ≡ r.cap) × (r.cap ≤ length h))

-- The head moves on, or wraps around.
mod_head : (a b size head : ℕ) → 0 < b → a + suc b ≡ size → a ≡ head → (head + 1) % size ≡ a + 1
mod_head a b size head positive e e' = rw (sym e, sym e') (mod-eq_of_lt (omega arith))

mod_wrap : (a size head : ℕ) → a + 1 ≡ size → a ≡ head → (head + 1) % size ≡ 0
mod_wrap a size head e e' = rw (sym e, sym e') (mod_self (a + 1))

pub lt_or_ge : (a b : ℕ) → (a < b) ⊎ (b ≤ a)
lt_or_ge a b = ground arith

slot_inside : (a b size j : ℕ) → a + b ≡ size → j < b → (a + (0 + j)) % size ≡ a + j
slot_inside a b size j e lt =
    let sum : a + (0 + j) ≡ a + j = omega arith in
    ap (λ t. t % size) sum ∙ mod-eq_of_lt (omega arith)

not_empty : (c n : ℕ) → c ≡ suc n → (c == 0) ≡ false
not_empty c n e = ground arith

slot_behind : (a b size j : ℕ) → a + b ≡ size → b ≤ j → j < a + b → (a + (0 + j)) % size ≡ j - b
slot_behind a b size j e le lt =
    let sum : a + (0 + j) ≡ (j - b) + size = omega arith in
    ap (λ t. t % size) sum ∙ add-mod_right (j - b) size ∙ mod-eq_of_lt (omega arith)

plus_zero : (i : ℕ) → i ≡ i + 0
plus_zero i = omega arith

plus_suc : (i j : ℕ) → i + 1 + j ≡ i + suc j
plus_suc i j = omega arith

module _ {ℓ} {A : Type ℓ} where
  -- A full window moves on by one.
  newest-snoc :
      (n : ℕ) (h rest : List A) (o v : A)
      → 0 < n
      → n ≤ length h
      → newest n h ≡ o ∷ rest
      → newest n (h ++ (v ∷ [])) ≡ rest ++ (v ∷ [])
  newest-snoc n h rest o v positive full e =
      let shift : length (h ++ (v ∷ [])) - n ≡ suc (length h - n) =
        omega (arith, length-append h (v ∷ [])) in
      rw
        (
          shift,
          drop-append_of_le (suc (length h - n)) h (v ∷ []) (omega arith),
          drop-suc (length h - n) h rest o e,
        )
        refl

  newest-all : (n : ℕ) (h : List A) → length h ≤ n → newest n h ≡ h
  newest-all n h small = let none_dropped : length h - n ≡ 0 = omega arith in rw none_dropped refl

  -- A push where the head does not wrap around.
  push-Holds_inside :
      (r : Ring A) (h newer os : List A) (o o' v : A)
      → Holds r h newer (o ∷ o' ∷ os)
      → Holds (push r v) (h ++ (v ∷ [])) (newer ++ (v ∷ [])) (o' ∷ os)
  unfolding push
  push-Holds_inside r h newer os o o' v holds = record {
    cut =
        rw
          (
            holds.cut,
            sym holds.at_head,
            set-append newer (o' ∷ os) o v,
            append_assoc newer (v ∷ []) (o' ∷ os),
          )
          refl;
    sized = omega (arith, holds.sized, length-append newer (v ∷ []));
    at_head =
        rw
          (mod_head (length newer) (suc (length os)) r.cap r.head (omega arith) holds.sized
            holds.at_head)
          (length-append newer (v ∷ []));
    room = omega arith;
    filled = elim holds.filled [
      | inl (all, c) ↦
          inl
            (ap (λ t. t ++ (v ∷ [])) all, ground (arith, length-append newer (v ∷ []), holds.sized))
      | inr (window, c, full) ↦ inr (
        newest-snoc r.cap h (o' ∷ (os ++ newer)) o v (omega (arith, holds.sized)) full window
            ∙ append_assoc (o' ∷ os) newer (v ∷ []),
        ground (arith, holds.sized),
        omega (arith, length-append h (v ∷ [])),
      )
    ];
  }

  -- The push into the last slot: the head returns to 0 and everything is older than it.
  push-Holds_wrap :
      (r : Ring A) (h newer : List A) (o v : A)
      → Holds r h newer (o ∷ [])
      → Holds (push r v) (h ++ (v ∷ [])) [] (newer ++ (v ∷ []))
  unfolding push
  push-Holds_wrap r h newer o v holds = record {
    cut = rw (holds.cut, sym holds.at_head, set-append newer [] o v) refl;
    sized = omega (arith, holds.sized, length-append newer (v ∷ []));
    at_head = sym (mod_wrap (length newer) r.cap r.head (omega (arith, holds.sized)) holds.at_head);
    room = omega (arith, length-append newer (v ∷ []));
    filled = elim holds.filled [
      | inl (all, c) ↦ inr (
        newest-all r.cap (h ++ (v ∷ []))
              (rw all (omega (arith, holds.sized, length-append newer (v ∷ []))))
            ∙ ap (λ t. t ++ (v ∷ [])) all
            ∙ sym (append-nil (newer ++ (v ∷ []))),
        ground (arith, holds.sized),
        rw all (omega (arith, holds.sized, length-append newer (v ∷ []))),
      )
      | inr (window, c, full) ↦ inr (
        newest-snoc r.cap h newer o v (omega (arith, holds.sized)) full window
            ∙ sym (append-nil (newer ++ (v ∷ []))),
        ground (arith, holds.sized),
        omega (arith, length-append h (v ∷ [])),
      )
    ];
  }

  -- Rounds of `Snapshot` that read the entries of `ys`.
  read_lem :
      (r : Ring A) (start i : ℕ) (ys : List A)
      → ((j : ℕ) → j < length ys → get_elem? r.buf ((start + (i + j)) % r.cap) ≡ get_elem? ys j)
      → read r start i (length ys) ≡ map some ys
  unfolding read
  read_lem r start i [] at = refl
  read_lem r start i (y ∷ ys) at =
      let here : get_elem? r.buf ((start + i) % r.cap) ≡ some y =
        rw (plus_zero i) (at 0 (omega arith)) in
      rw (here, read_lem r start (i + 1) ys (λ j lt. rw (plus_suc i j) (at (suc j) (omega arith))))
        refl

  -- `Snapshot` of a ring whose count is the length of `ys`, when its rounds read `ys`.
  snapshot_lem :
      (r : Ring A) (ys : List A)
      → r.count ≡ length ys
      → ((j : ℕ)
          → j < length ys
          → get_elem? r.buf (((r.head + r.cap - r.count) % r.cap + (0 + j)) % r.cap)
            ≡ get_elem? ys j)
      → snapshot r ≡ map some ys
  unfolding snapshot read
  snapshot_lem r [] c at = rw c refl
  snapshot_lem r (y ∷ ys) c at =
      let rounds : read r ((r.head + r.cap - r.count) % r.cap) 0 (length (y ∷ ys))
          ≡ map some (y ∷ ys) =
        read_lem r ((r.head + r.cap - r.count) % r.cap) 0 (y ∷ ys) at in
      rw (not_empty r.count (length ys) c)
        (ap (read r ((r.head + r.cap - r.count) % r.cap) 0) c ∙ rounds)

  filling_lem :
      (r : Ring A) (newer older : List A) (j : ℕ)
      → r.buf ≡ newer ++ older
      → length newer + length older ≡ r.cap
      → length newer ≡ r.head
      → r.count ≡ length newer
      → j < length newer
      → get_elem? r.buf (((r.head + r.cap - r.count) % r.cap + (0 + j)) % r.cap) ≡ get_elem? newer j
  filling_lem r newer older j cut sized at_head c lt =
      let sum : r.head + r.cap - r.count ≡ r.cap = omega arith in
      let start : (r.head + r.cap - r.count) % r.cap ≡ 0 =
        ap (λ t. t % r.cap) sum ∙ mod_self r.cap in
      let slot : (0 + (0 + j)) % r.cap ≡ j =
        slot_inside 0 r.cap r.cap j (omega arith) (omega arith) ∙ (omega arith) in
      rw (start, slot, cut) (get_elem?-append_left newer older j lt)

  full_start :
      (r : Ring A) (newer older : List A)
      → length newer + length older ≡ r.cap
      → length newer ≡ r.head
      → 0 < length older
      → r.count ≡ r.cap
      → (r.head + r.cap - r.count) % r.cap ≡ length newer
  full_start r newer older sized at_head room c =
      let sum : r.head + r.cap - r.count ≡ length newer = omega arith in
      ap (λ t. t % r.cap) sum ∙ mod-eq_of_lt (omega arith)

  full_behind :
      (newer older : List A) (size j : ℕ)
      → length newer + length older ≡ size
      → length older ≤ j
      → j < length newer + length older
      → get_elem? (newer ++ older) ((length newer + (0 + j)) % size) ≡ get_elem? (older ++ newer) j
  full_behind newer older size j sized le lt =
      let back : j ≡ length older + (j - length older) = omega arith in
      rw (slot_behind (length newer) (length older) size j sized le lt) (
        get_elem?-append_left newer older (j - length older) (omega arith)
        ∙ sym (get_elem?-append_right older newer (j - length older))
        ∙ ap (get_elem? (older ++ newer)) (sym back))

  -- In a full ring the older part is read first, then the newer one behind the wrap.
  full_lem :
      (r : Ring A) (newer older : List A) (j : ℕ)
      → r.buf ≡ newer ++ older
      → length newer + length older ≡ r.cap
      → length newer ≡ r.head
      → 0 < length older
      → r.count ≡ r.cap
      → j < length (older ++ newer)
      → get_elem? r.buf (((r.head + r.cap - r.count) % r.cap + (0 + j)) % r.cap)
        ≡ get_elem? (older ++ newer) j
  full_lem r newer older j cut sized at_head room c lt =
      rw (full_start r newer older sized at_head room c, cut)
        (elim (lt_or_ge j (length older)) [
          | inl inside ↦ rw (slot_inside (length newer) (length older) r.cap j sized inside) (
              get_elem?-append_right newer older j
              ∙ sym (get_elem?-append_left older newer j inside))
          | inr behind ↦
              full_behind newer older r.cap j sized behind
                (omega (arith, length-append older newer))
        ])

  -- `Snapshot` shows the newest entries of the history, as many as fit, oldest first.
  snapshot-Holds :
      (r : Ring A) (h newer older : List A)
      → Holds r h newer older
      → snapshot r ≡ map some (newest r.cap h)
  snapshot-Holds r h newer older holds = elim holds.filled [
    | inl (all, c) ↦
        rw (all, newest-all r.cap newer (omega (arith, holds.sized)))
          (snapshot_lem r newer c
            (λ j lt. filling_lem r newer older j holds.cut holds.sized holds.at_head c lt))
    | inr (window, c, full) ↦ rw window (
        snapshot_lem r (older ++ newer) (omega (arith, length-append older newer, holds.sized))
          (λ j lt. full_lem r newer older j holds.cut holds.sized holds.at_head holds.room c lt))
  ]

  -- Every ring that pushes lead to is so cut.
  push_all-snapshot :
      (r : Ring A) (h newer older vs : List A)
      → Holds r h newer older
      → snapshot (push_all r vs) ≡ map some (newest r.cap (h ++ vs))
  unfolding push_all push
  push_all-snapshot r h newer older [] holds =
      rw (append-nil h) (snapshot-Holds r h newer older holds)
  push_all-snapshot r h newer [] (v ∷ vs) holds = elim holds.room [ ]
  push_all-snapshot r h newer (o ∷ []) (v ∷ vs) holds = rw (sym (append_assoc h (v ∷ []) vs)) (
      push_all-snapshot (push r v) (h ++ (v ∷ [])) [] (newer ++ (v ∷ [])) vs
        (push-Holds_wrap r h newer o v holds))
  push_all-snapshot r h newer (o ∷ o' ∷ os) (v ∷ vs) holds = rw (sym (append_assoc h (v ∷ []) vs)) (
      push_all-snapshot (push r v) (h ++ (v ∷ [])) (newer ++ (v ∷ [])) (o' ∷ os) vs
        (push-Holds_inside r h newer os o o' v holds))

  new_ring-Holds :
      (zero_value : A) (cap_n : ℕ)
      → Holds (new_ring zero_value cap_n) [] [] (replicate (clamped cap_n) zero_value)
  unfolding new_ring
  new_ring-Holds zero_value cap_n = record {
    cut = refl;
    sized = omega (arith, length-replicate (clamped cap_n) zero_value);
    at_head = refl;
    room = ground (arith, length-replicate (clamped cap_n) zero_value);
    filled = inl (refl, refl);
  }

  -- After any pushes on a new ring, for any requested capacity, the snapshot reads no slot out of
  -- range and is the last entries pushed, oldest first: as many as the capacity, a capacity of 0 counting as 1.
  pub push_all-new_ring-snapshot :
      (zero_value : A) (cap_n : ℕ) (vs : List A)
      → snapshot (push_all (new_ring zero_value cap_n) vs) ≡ map some (newest (clamped cap_n) vs)
  unfolding new_ring
  push_all-new_ring-snapshot zero_value cap_n vs =
      push_all-snapshot (new_ring zero_value cap_n) [] [] (replicate (clamped cap_n) zero_value) vs
        (new_ring-Holds zero_value cap_n)
