-- ===== src/Store/Rows.antt =====
-- Facts about rows: what a revocation, an insertion and a deletion do to a look-up.
use open_scanner.Base.{
  ℕ, suc, ◌<◌, ◌≡◌, refl, inl, inr, Bool, true, false, not, ◌||◌, ◌&&◌, Option, none, some, String,
  arith, List, [], ◌∷◌, ◌++◌, ltb, ◌==◌, str_eq, if◌then◌else◌, keep, any, All, Bool-cases,
}
use open_scanner.Store.{
  Db, RefreshToken, Faults, find_first, revoke_where, create_refresh_token,
  get_refresh_token_by_hash, q_get_refresh_token, q_revoke_family, revoke_refresh_token_family,
  create_log, delete_expired_refresh_tokens, q_delete_expired,
}

abbrev pub has_hash : String → RefreshToken → Bool
has_hash hash t = str_eq t.token_hash hash

-- `UPDATE … SET revoked = 1` on one row.
abbrev pub mark : (RefreshToken → Bool) → RefreshToken → RefreshToken
mark p t = if p t then record t { revoked = 1 } else t

abbrev pub map_found : (RefreshToken → RefreshToken) → Option RefreshToken → Option RefreshToken
map_found f none = none
map_found f (some t) = some (f t)

mark-hash :
    (p : RefreshToken → Bool) (hash : String) (t : RefreshToken)
    → has_hash hash (mark p t) ≡ has_hash hash t
mark-hash p hash t = elim (Bool-cases (p t)) [ inl e ↦ rw e | inr e ↦ rw e ]

-- A revocation reaches the row that a look-up by hash finds, and no look-up finds another row.
pub find_first-revoke_where :
    (p : RefreshToken → Bool) (hash : String) (ts : List RefreshToken)
    → find_first (has_hash hash) (revoke_where p ts)
      ≡ map_found (mark p) (find_first (has_hash hash) ts)
unfolding find_first revoke_where
find_first-revoke_where p hash [] = refl
find_first-revoke_where p hash (t ∷ ts) = elim (Bool-cases (has_hash hash t)) [
  | inl own ↦ rw (mark-hash p hash t, own)
  | inr other ↦ rw (mark-hash p hash t, other) (find_first-revoke_where p hash ts)
]

pub any-revoke_where :
    (p : RefreshToken → Bool) (hash : String) (ts : List RefreshToken)
    → any (has_hash hash) (revoke_where p ts) ≡ any (has_hash hash) ts
unfolding revoke_where
any-revoke_where p hash [] = refl
any-revoke_where p hash (t ∷ ts) = rw (mark-hash p hash t, any-revoke_where p hash ts)

pub find_first-append :
    (q : RefreshToken → Bool) (ts us : List RefreshToken) (t : RefreshToken)
    → find_first q ts ≡ some t
    → find_first q (ts ++ us) ≡ some t
unfolding find_first
find_first-append q [] us t h = absurd (cc)
find_first-append q (x ∷ ts) us t h = ground (arith, find_first-append q ts us t)

pub find_first-append_new :
    (q : RefreshToken → Bool) (ts : List RefreshToken) (t : RefreshToken)
    → any q ts ≡ false
    → q t ≡ true
    → find_first q (ts ++ (t ∷ [])) ≡ some t
unfolding find_first
find_first-append_new q [] t h k = rw k
find_first-append_new q (x ∷ ts) t h k = ground (arith, find_first-append_new q ts t)

pub find_first_passes :
    (q : RefreshToken → Bool) (ts : List RefreshToken) (t : RefreshToken)
    → find_first q ts ≡ some t
    → q t ≡ true
unfolding find_first
find_first_passes q [] t h = absurd (cc)
find_first_passes q (x ∷ ts) t h = elim (Bool-cases (q x)) [
  | inl own ↦ ground arith
  | inr other ↦ find_first_passes q ts t (rw other at h)
]

pub find_first-none :
    (q : RefreshToken → Bool) (ts : List RefreshToken) → any q ts ≡ false → find_first q ts ≡ none
unfolding find_first
find_first-none q [] h = refl
find_first-none q (x ∷ ts) h = ground (arith, find_first-none q ts)

-- After `CreateRefreshToken` the new row is what its hash finds, and every other look-up that found
-- a row finds it still.
pub create_refresh_token-rows :
    (fails : Faults) (db db' : Db) (uid : ℕ) (hash family : String) (expires_at created_at : ℕ)
    → create_refresh_token fails db uid hash family expires_at created_at ≡ some db'
    → (any (has_hash hash) db.refresh_tokens ≡ false)
      × (db'.refresh_tokens
          ≡ db.refresh_tokens
            ++ (record {
              id = db.next_token_id;
              user_id = uid;
              token_hash = hash;
              family_id = family;
              expires_at = expires_at;
              revoked = 0;
              created_at = created_at;
            }
                ∷ []))
      × (db'.users ≡ db.users)
      × (db'.next_token_id ≡ suc db.next_token_id)
unfolding create_refresh_token
create_refresh_token-rows fails db db' uid hash family expires_at created_at h = ground arith

pub get_refresh_token_by_hash-found :
    (fails : Faults) (db : Db) (hash : String) (t : RefreshToken)
    → get_refresh_token_by_hash fails db hash ≡ some t
    → find_first (has_hash hash) db.refresh_tokens ≡ some t
unfolding get_refresh_token_by_hash
get_refresh_token_by_hash-found fails db hash t h = ground arith

pub get_refresh_token_by_hash-works :
    (fails : Faults) (db : Db) (hash : String)
    → fails q_get_refresh_token ≡ false
    → get_refresh_token_by_hash fails db hash ≡ find_first (has_hash hash) db.refresh_tokens
unfolding get_refresh_token_by_hash
get_refresh_token_by_hash-works fails db hash h = rw h

-- Every row that passes is revoked.
abbrev pub RevokedWhere : (RefreshToken → Bool) → List RefreshToken → Type 0
RevokedWhere p = All (λ t. p t ≡ true → t.revoked ≡ 1)

pub revoke_where-RevokedWhere :
    (p : RefreshToken → Bool) (ts : List RefreshToken) → RevokedWhere p (revoke_where p ts)
unfolding revoke_where
revoke_where-RevokedWhere p [] = tt
revoke_where-RevokedWhere p (t ∷ ts) = elim (Bool-cases (p t)) [
  | inl own ↦ rw own (λ _. refl, revoke_where-RevokedWhere p ts)
  | inr other ↦ rw other (λ h. absurd (no h other), revoke_where-RevokedWhere p ts)
]
  where
    no : p t ≡ true → p t ≡ false → ⊥
    no a b = cc

pub revoke_refresh_token_family-rows :
    (fails : Faults) (db : Db) (family : String)
    → fails q_revoke_family ≡ false
    → (revoke_refresh_token_family fails db family).refresh_tokens
      ≡ revoke_where (λ t. str_eq t.family_id family) db.refresh_tokens
unfolding revoke_refresh_token_family
revoke_refresh_token_family-rows fails db family h = rw h

pub create_log-rows :
    (fails : Faults) (db : Db) (now : ℕ) (level message : String)
    → (create_log fails db now level message).refresh_tokens ≡ db.refresh_tokens
unfolding create_log
create_log-rows fails db now level message = ground arith

-- Whether the hourly deletion keeps a row.
abbrev keeps : ℕ → ℕ → RefreshToken → Bool
keeps expired_before revoked_before t =
    not (ltb t.expires_at expired_before || (t.revoked == 1 && ltb t.created_at revoked_before))

find_first-keep :
    (hash : String) (e r : ℕ) (ts : List RefreshToken)
    → All (λ t. has_hash hash t ≡ true → (t.revoked ≡ 1) × (t.created_at < r)) ts
    → find_first (has_hash hash) (keep (keeps e r) ts) ≡ none
unfolding find_first
find_first-keep hash e r [] k = refl
find_first-keep hash e r (t ∷ ts) k = elim (Bool-cases (keeps e r t)) [
  | inr gone ↦ rw gone (find_first-keep hash e r ts k.1)
  | inl stays ↦ rw stays (elim (Bool-cases (has_hash hash t)) [
    | inl own ↦ absurd (taken own stays (k.0 own))
    | inr other ↦ rw other (find_first-keep hash e r ts k.1)
  ])
]
  where
    taken : has_hash hash t ≡ true → keeps e r t ≡ true → (t.revoked ≡ 1) × (t.created_at < r) → ⊥
    taken own stays old = ground arith

-- Rows that the hourly deletion takes are not found.
pub delete_expired-find :
    (fails : Faults) (db : Db) (hash : String) (expired_before revoked_before : ℕ)
    → fails q_delete_expired ≡ false
    → All
        (λ t. has_hash hash t ≡ true → (t.revoked ≡ 1) × (t.created_at < revoked_before))
        db.refresh_tokens
    → find_first
        (has_hash hash)
        (delete_expired_refresh_tokens fails db expired_before revoked_before).refresh_tokens
      ≡ none
unfolding delete_expired_refresh_tokens
delete_expired-find fails db hash expired_before revoked_before works spent =
    rw works (find_first-keep hash expired_before revoked_before db.refresh_tokens spent)
