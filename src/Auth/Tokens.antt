-- ===== src/Auth/Tokens.antt =====
-- backend/internal/auth/auth.go, `TokenTracker`: the access tokens in use by each user and the deny
-- list. Times are nanoseconds. Each method holds the mutex; the clock is an argument.
-- `userTokens` is an association list, since `cleanupLocked` walks it; `denied` is a function.
pub mod Bound
pub mod Denial
use open_scanner.Base.{
  ℕ, suc, ◌+◌, ◌*◌, Bool, true, false, Option, none, some, String, ltb, leb, ◌==◌, if◌then◌else◌,
  StringMap, put_at, drop_if, List, [], ◌∷◌, ◌++◌, length, keep, str_eq,
}

-- 15 * time.Minute
abbrev pub access_token_expiry : ℕ
access_token_expiry = 900_000_000_000

abbrev pub max_refresh_families : ℕ
max_refresh_families = 20

pub record TokenEntry : Type 0 where
  pub jti : String
  pub expires_at : ℕ

pub record TokenTracker : Type 0 where
  pub max_tokens : ℕ
  pub user_tokens : List (ℕ × List TokenEntry)
  pub denied : StringMap ℕ

abbrev pub new_token_tracker : TokenTracker
new_token_tracker = record {
  max_tokens = max_refresh_families;
  user_tokens = [];
  denied = λ jti. none;
}

-- `tt.userTokens[userID]`; a missing key reads as the empty slice.
pub tokens_of : ℕ → List (ℕ × List TokenEntry) → List TokenEntry
tokens_of uid [] = []
tokens_of uid ((u, es) ∷ rest) = if u == uid then es else tokens_of uid rest

-- `tt.userTokens[userID] = es`
pub set_tokens : ℕ → List TokenEntry → List (ℕ × List TokenEntry) → List (ℕ × List TokenEntry)
set_tokens uid es [] = (uid, es) ∷ []
set_tokens uid es ((u, old) ∷ rest) =
    if u == uid then (uid, es) ∷ rest else (u, old) ∷ set_tokens uid es rest

-- `delete(tr.userTokens, userID)`
pub delete_tokens : ℕ → List (ℕ × List TokenEntry) → List (ℕ × List TokenEntry)
delete_tokens uid [] = []
delete_tokens uid ((u, es) ∷ rest) =
    if u == uid then delete_tokens uid rest else (u, es) ∷ delete_tokens uid rest

abbrev is_live : ℕ → TokenEntry → Bool
is_live now e = ltb now e.expires_at

-- The `delete(tr.denied, e.JTI)` of the inner loop, for the entries of one user that have run out.
pub forget_dead : ℕ → List TokenEntry → StringMap ℕ → StringMap ℕ
forget_dead now [] d = d
forget_dead now (e ∷ es) d = forget_dead now es (if is_live now e then d else put_at d e.jti none)

pub forget_users : ℕ → List (ℕ × List TokenEntry) → StringMap ℕ → StringMap ℕ
unfolding forget_dead
forget_users now [] d = d
forget_users now ((u, es) ∷ rest) d = forget_users now rest (forget_dead now es d)

-- What the loop leaves of one user: the live entries, or nothing at all.
abbrev keep_user : ℕ → List TokenEntry → List (ℕ × List TokenEntry) → List (ℕ × List TokenEntry)
keep_user u [] rest = rest
keep_user u (e ∷ es) rest = (u, e ∷ es) ∷ rest

pub sweep_users : ℕ → List (ℕ × List TokenEntry) → List (ℕ × List TokenEntry)
sweep_users now [] = []
sweep_users now ((u, es) ∷ rest) = keep_user u (keep (is_live now) es) (sweep_users now rest)

unfoldable pub cleanup_locked : TokenTracker → ℕ → TokenTracker
unfolding forget_users sweep_users
cleanup_locked tr now = record tr {
  user_tokens = sweep_users now tr.user_tokens;
  denied = drop_if (λ exp. ltb exp now) (forget_users now tr.user_tokens tr.denied);
}

-- The part of `Track` behind the clean-up: the eviction, on the user's entries, and the append. A `MaxTokens` of 0 would make
-- the code index an empty slice; the only constructor sets 20.
abbrev evict : TokenTracker → List TokenEntry → TokenTracker × List TokenEntry
evict tr [] = (tr, [])
evict tr (oldest ∷ rest) =
    if leb tr.max_tokens (length (oldest ∷ rest))
    then (record tr { denied = put_at tr.denied oldest.jti (some oldest.expires_at) }, rest)
    else (tr, oldest ∷ rest)

pub append_token : TokenTracker → ℕ → String → ℕ → TokenTracker
unfolding tokens_of set_tokens
append_token tr uid jti expires_at =
    let (kept, entries) = evict tr (tokens_of uid tr.user_tokens) in
    record kept {
      user_tokens =
          set_tokens uid (entries ++ (record { jti = jti; expires_at = expires_at } ∷ []))
            kept.user_tokens;
    }

unfoldable pub track : TokenTracker → ℕ → String → ℕ → ℕ → TokenTracker
unfolding cleanup_locked append_token
track tr uid jti expires_at now = append_token (cleanup_locked tr now) uid jti expires_at

abbrev revoked_found : TokenTracker → String → Option ℕ → ℕ → TokenTracker × Bool
revoked_found tr jti none now = (tr, false)
revoked_found tr jti (some exp) now =
    if ltb exp now then (record tr { denied = put_at tr.denied jti none }, false) else (tr, true)

unfoldable pub is_revoked : TokenTracker → String → ℕ → TokenTracker × Bool
is_revoked tr jti now = revoked_found tr jti (tr.denied jti) now

unfoldable pub revoke : TokenTracker → String → ℕ → TokenTracker
revoke tr jti now = record tr { denied = put_at tr.denied jti (some (now + access_token_expiry)) }

pub deny_all : List TokenEntry → StringMap ℕ → StringMap ℕ
deny_all [] d = d
deny_all (e ∷ es) d = deny_all es (put_at d e.jti (some e.expires_at))

unfoldable pub revoke_all_for_user : TokenTracker → ℕ → TokenTracker
unfolding deny_all tokens_of delete_tokens
revoke_all_for_user tr uid = record tr {
  user_tokens = delete_tokens uid tr.user_tokens;
  denied = deny_all (tokens_of uid tr.user_tokens) tr.denied;
}

-- The calls, for histories.
pub data Event : Type 0 where
  tracks : ℕ → String → ℕ → Event
  checks revokes : String → Event
  revokes_user : ℕ → Event

unfoldable pub step : TokenTracker → ℕ → Event → TokenTracker
unfolding track is_revoked revoke revoke_all_for_user
step tr now (tracks uid jti exp) = track tr uid jti exp now
step tr now (checks jti) = (is_revoked tr jti now).0
step tr now (revokes jti) = revoke tr jti now
step tr now (revokes_user uid) = revoke_all_for_user tr uid

pub run : TokenTracker → List (ℕ × Event) → TokenTracker
run tr [] = tr
run tr ((now, e) ∷ es) = run (step tr now e) es
