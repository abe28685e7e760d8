-- ===== src/Store.antt =====
-- The tables that authentication uses, and the queries on them: backend/internal/db/models.go,
-- users.sql.go, refresh_tokens.sql.go and logs.sql.go. A query is its SQL statement on lists of
-- rows in insertion order. Any query may fail: `fails` says which do in the request at hand, and a
-- query that fails changes nothing. Ids are row ids, which SQLite makes positive.
pub mod Rows
use open_scanner.Base.{
  ℕ, suc, ◌+◌, Bool, true, false, not, ◌&&◌, ◌||◌, Option, none, some, String, List, [], ◌∷◌, ◌++◌,
  ◌==◌, ltb, str_eq, if◌then◌else◌, keep, any, length, ℤ, map,
}

pub record User : Type 0 where
  pub id : ℕ
  pub username : String
  pub password_hash : String
  pub role : String
  pub disabled : ℕ
  pub systems_json : Option String
  pub expiration : Option ℤ
  pub limit : Option ℤ
  pub password_need_change : ℕ
  pub tg_selection_json : Option String
  pub created_at : ℕ
  pub updated_at : ℕ

pub record RefreshToken : Type 0 where
  pub id : ℕ
  pub user_id : ℕ
  pub token_hash : String
  pub family_id : String
  pub expires_at : ℕ
  pub revoked : ℕ
  pub created_at : ℕ

pub record Log : Type 0 where
  pub date_time : ℕ
  pub level : String
  pub message : String

pub record Db : Type 0 where
  pub users : List User
  pub refresh_tokens : List RefreshToken
  pub next_token_id : ℕ
  pub logs : List Log

pub data Query : Type 0 where
  q_get_user q_get_user_by_username q_update_user_password q_update_user_tg_selection : Query
  q_get_refresh_token q_create_refresh_token q_revoke_refresh_token q_revoke_family : Query
  q_revoke_all_for_user q_count_families q_oldest_family q_create_log q_delete_expired : Query

abbrev pub Faults : Type 0
Faults = Query → Bool

-- The first row that passes.
unfoldable pub find_first {ℓ} : {A : Type ℓ} → (A → Bool) → List A → Option A
find_first p [] = none
find_first p (x ∷ xs) = if p x then some x else find_first p xs

unfoldable pub get_user : Faults → Db → ℕ → Option User
unfolding find_first
get_user fails db id = if fails q_get_user then none else find_first (λ u. u.id == id) db.users

unfoldable pub get_user_by_username : Faults → Db → String → Option User
unfolding find_first
get_user_by_username fails db name =
    if fails q_get_user_by_username then none else find_first (λ u. str_eq u.username name) db.users

-- `UPDATE users SET … WHERE id = ?`
unfoldable pub update_users : (User → User) → ℕ → List User → List User
update_users f id [] = []
update_users f id (u ∷ us) = (if u.id == id then f u else u) ∷ update_users f id us

-- The result is `none` for an error.
unfoldable pub update_user_password : Faults → Db → String → ℕ → ℕ → Option Db
unfolding update_users
update_user_password fails db hash now id =
    if fails q_update_user_password
    then none
    else some (record db {
      users =
          update_users
            (λ u. record u { password_hash = hash; password_need_change = 0; updated_at = now }) id
            db.users;
    })

unfoldable pub update_user_tg_selection : Faults → Db → String → ℕ → ℕ → Option Db
unfolding update_users
update_user_tg_selection fails db selection now id =
    if fails q_update_user_tg_selection
    then none
    else some (record db {
      users =
          update_users (λ u. record u { tg_selection_json = some selection; updated_at = now }) id
            db.users;
    })

unfoldable pub get_refresh_token_by_hash : Faults → Db → String → Option RefreshToken
unfolding find_first
get_refresh_token_by_hash fails db hash =
    if fails q_get_refresh_token
    then none
    else find_first (λ t. str_eq t.token_hash hash) db.refresh_tokens

-- The column `token_hash` is UNIQUE: a second row with the same hash is an error.
unfoldable pub create_refresh_token : Faults → Db → ℕ → String → String → ℕ → ℕ → Option Db
create_refresh_token fails db user_id hash family expires_at created_at =
    if fails q_create_refresh_token || any (λ t. str_eq t.token_hash hash) db.refresh_tokens
    then none
    else some (record db {
      refresh_tokens =
          db.refresh_tokens
          ++ (record {
            id = db.next_token_id;
            user_id = user_id;
            token_hash = hash;
            family_id = family;
            expires_at = expires_at;
            revoked = 0;
            created_at = created_at;
          }
              ∷ []);
      next_token_id = suc db.next_token_id;
    })

-- `UPDATE refresh_tokens SET revoked = 1 WHERE …`
unfoldable pub revoke_where : (RefreshToken → Bool) → List RefreshToken → List RefreshToken
revoke_where p [] = []
revoke_where p (t ∷ ts) = (if p t then record t { revoked = 1 } else t) ∷ revoke_where p ts

unfoldable pub revoke_refresh_token : Faults → Db → ℕ → Db
unfolding revoke_where
revoke_refresh_token fails db id =
    if fails q_revoke_refresh_token
    then db
    else record db { refresh_tokens = revoke_where (λ t. t.id == id) db.refresh_tokens }

unfoldable pub revoke_refresh_token_family : Faults → Db → String → Db
unfolding revoke_where
revoke_refresh_token_family fails db family = if fails q_revoke_family then db else record db {
  refresh_tokens = revoke_where (λ t. str_eq t.family_id family) db.refresh_tokens;
}

unfoldable pub revoke_all_refresh_tokens_for_user : Faults → Db → ℕ → Db
unfolding revoke_where
revoke_all_refresh_tokens_for_user fails db uid =
    if fails q_revoke_all_for_user
    then db
    else record db { refresh_tokens = revoke_where (λ t. t.user_id == uid) db.refresh_tokens }

-- `user_id = ? AND revoked = 0 AND expires_at > ?`
abbrev pub is_active : ℕ → ℕ → RefreshToken → Bool
is_active uid now t = t.user_id == uid && t.revoked == 0 && ltb now t.expires_at

-- COUNT(DISTINCT family_id): a row counts if no later row has its family.
unfoldable pub count_families : List RefreshToken → ℕ
count_families [] = 0
count_families (t ∷ ts) =
    (if any (λ u. str_eq u.family_id t.family_id) ts then 0 else 1) + count_families ts

unfoldable pub count_active_refresh_token_families : Faults → Db → ℕ → ℕ → Option ℕ
unfolding count_families
count_active_refresh_token_families fails db uid now =
    if fails q_count_families
    then none
    else some (count_families (keep (is_active uid now) db.refresh_tokens))

-- ORDER BY created_at ASC LIMIT 1; of rows of one second, the first inserted.
unfoldable pub oldest : List RefreshToken → Option RefreshToken
oldest [] = none
oldest (t ∷ ts) = elim (oldest ts) [
  | none ↦ some t
  | some u ↦ some (if ltb u.created_at t.created_at then u else t)
]

unfoldable pub get_oldest_active_refresh_token_family : Faults → Db → ℕ → ℕ → Option String
unfolding oldest
get_oldest_active_refresh_token_family fails db uid now =
    if fails q_oldest_family
    then none
    else elim (oldest (keep (is_active uid now) db.refresh_tokens)) [
      | none ↦ none
      | some t ↦ some t.family_id
    ]

unfoldable pub create_log : Faults → Db → ℕ → String → String → Db
create_log fails db now level message = if fails q_create_log then db else record db {
  logs = db.logs ++ (record { date_time = now; level = level; message = message } ∷ []);
}

-- DELETE FROM refresh_tokens WHERE expires_at < ? OR (revoked = 1 AND created_at < ?)
unfoldable pub delete_expired_refresh_tokens : Faults → Db → ℕ → ℕ → Db
delete_expired_refresh_tokens fails db expired_before revoked_before =
    if fails q_delete_expired then db else record db {
      refresh_tokens =
          keep
            (λ t. not (
              ltb t.expires_at expired_before
              || (t.revoked == 1 && ltb t.created_at revoked_before)))
            db.refresh_tokens;
    }
