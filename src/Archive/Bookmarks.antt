-- ===== src/Archive/Bookmarks.antt =====
-- `PostToggleBookmark` of backend/internal/handler/bookmarks/bookmarks.go, with the queries of
-- backend/internal/db/bookmarks.sql.go that it makes. A row's id, session and time are not kept.
-- Row ids are above 0: in a request 0 stands for every number that is none.
pub mod Marks
pub mod Toggles
use open_scanner.Base.{
  ℕ, suc, Bool, true, false, not, ◌&&◌, ◌||◌, Option, none, some, String, List, [], ◌∷◌, ◌++◌, ◌==◌,
  if◌then◌else◌, any, keep, str_eq,
}
use open_scanner.Grants.{Json, NullString, Viewer, parse_system_grants, has_system_access}
use open_scanner.Ingest.Tables.{
  Call, BookmarkRow, Db, Faults, Lookup, found, no_rows, failed, q_get_bookmark, q_create_bookmark,
  q_delete_bookmark,
}
use open_scanner.Archive.{get_call}
use open_scanner.Archive.Rows.{is_owner}

pub record MarkEnv : Type 0 where
  pub fails : Faults
  pub grants_json : Json
  -- `GetUser`: the grants of the row, `none` on an error
  pub systems_json : ℕ → Option NullString

-- The user and role of the context, and the call of the body, `none` where it does not bind.
pub record MarkRequest : Type 0 where
  pub user_id : ℕ
  pub role : String
  pub call_id : Option ℕ

pub data Toggled : Type 0 where
  refused : ℕ → String → Toggled
  -- with the id of the new row
  marked : ℕ → Toggled
  unmarked : Toggled

abbrev pub is_mark : ℕ → ℕ → BookmarkRow → Bool
is_mark call user b = (b.call_id == call) && is_owner user b.user_id

abbrev pub is_marked : Db → ℕ → ℕ → Bool
is_marked db call user = any (is_mark call user) db.bookmarks

-- `none` is an error other than sql.ErrNoRows.
unfoldable pub get_bookmark_by_call_and_user : Faults → Db → ℕ → ℕ → Option Bool
get_bookmark_by_call_and_user fails db call user =
    if fails q_get_bookmark then none else some (is_marked db call user)

-- The foreign key asks for the call.
unfoldable pub create_bookmark : Faults → Db → ℕ → ℕ → Option (Db × ℕ)
create_bookmark fails db call user =
    if fails q_create_bookmark || not (any (λ c. c.id == call) db.calls)
    then none
    else some (
      record db {
        bookmarks = db.bookmarks ++ (record { call_id = call; user_id = some user } ∷ []);
        next_id = suc db.next_id;
      },
      db.next_id,
    )

unfoldable pub delete_bookmark_by_call_and_user : Faults → Db → ℕ → ℕ → Option Db
delete_bookmark_by_call_and_user fails db call user =
    if fails q_delete_bookmark
    then none
    else some (record db { bookmarks = keep (λ b. not (is_mark call user b)) db.bookmarks })

abbrev pub created : Db → Option (Db × ℕ) → Db × Toggled
created db none = (db, refused 500 "failed to create bookmark")
created db (some (db', id)) = (db', marked id)

abbrev pub deleted : Db → Option Db → Db × Toggled
deleted db none = (db, refused 500 "failed to delete bookmark")
deleted db (some db') = (db', unmarked)

abbrev pub flip : MarkEnv → Db → ℕ → ℕ → Option Bool → Db × Toggled
flip env db call user none = (db, refused 500 "failed to check bookmark")
flip env db call user (some false) = created db (create_bookmark env.fails db call user)
flip env db call user (some true) =
    deleted db (delete_bookmark_by_call_and_user env.fails db call user)

unfoldable pub toggle : MarkEnv → Db → ℕ → ℕ → Db × Toggled
unfolding get_bookmark_by_call_and_user create_bookmark delete_bookmark_by_call_and_user
toggle env db call user =
    flip env db call user (get_bookmark_by_call_and_user env.fails db call user)

-- What stands against a listener's request.
abbrev pub refusal_of : MarkEnv → Lookup Call → Option NullString → Option (ℕ × String)
refusal_of env no_rows sj = some (404, "call not found")
refusal_of env failed sj = some (500, "failed to check bookmark")
refusal_of env (found c) none = some (500, "failed to check bookmark")
refusal_of env (found c) (some sj) =
    if has_system_access (parse_system_grants env.grants_json sj) c.system_id c.talkgroup_id
    then none
    else some (404, "call not found")

abbrev pub refuse_or_toggle : MarkEnv → Db → ℕ → ℕ → Option (ℕ × String) → Db × Toggled
refuse_or_toggle env db call user (some (status, message)) = (db, refused status message)
refuse_or_toggle env db call user none = toggle env db call user

abbrev pub bound_request : MarkEnv → Db → MarkRequest → Option ℕ → Db × Toggled
bound_request env db req none = (db, refused 400 "invalid request body")
bound_request env db req (some call) =
    if str_eq req.role "admin"
    then toggle env db call req.user_id
    else refuse_or_toggle env db call req.user_id
        (refusal_of env (get_call env.fails db call) (env.systems_json req.user_id))

-- `PostToggleBookmark`
unfoldable pub post_toggle_bookmark : MarkEnv → Db → MarkRequest → Db × Toggled
unfolding toggle get_call
post_toggle_bookmark env db req = bound_request env db req req.call_id
