-- ===== src/Archive/Bookmarks/Toggles.antt =====
-- What a toggle of `PostToggleBookmark` changes.
use open_scanner.Base.{
  ℕ, Bool, true, false, not, ◌&&◌, ◌||◌, ◌≡◌, ◌⊎◌, inl, inr, refl, Option, none, some, String, ◌==◌,
  any, if◌then◌else◌, Bool-cases, str_eq,
}
use open_scanner.Grants.{NullString, parse_system_grants, has_system_access}
use open_scanner.Ingest.Tables.{
  Call, Db, Query, Lookup, found, no_rows, failed, q_get_bookmark, q_create_bookmark,
  q_delete_bookmark,
}
use open_scanner.Archive.{get_call}
use open_scanner.Archive.Bookmarks.Marks.{is_pair, any-snoc, any-clear}
use open_scanner.Archive.Bookmarks.{
  MarkEnv, MarkRequest, Toggled, refused, marked, unmarked, is_marked, toggle, refusal_of,
  refuse_or_toggle, bound_request, post_toggle_bookmark,
}

-- An administrator, or a listener whose grants let the call through.
abbrev pub MayMark : MarkEnv → Db → MarkRequest → ℕ → Type 0
MayMark env db req call =
    (str_eq req.role "admin" ≡ true)
    ⊎ ((c : Call) × (sj : NullString) × (get_call env.fails db call ≡ found c)
        × (env.systems_json req.user_id ≡ some sj)
        × (has_system_access (parse_system_grants env.grants_json sj) c.system_id c.talkgroup_id
            ≡ true))

-- Why a request is refused.
pub data Reason (env : MarkEnv) (db : Db) (req : MarkRequest) (call : ℕ) : Type 0 where
  query_failed : (q : Query) → env.fails q ≡ true → Reason env db req call
  no_such_call : any (λ c. c.id == call) db.calls ≡ false → Reason env db req call
  no_row : get_call env.fails db call ≡ no_rows → Reason env db req call
  no_answer : get_call env.fails db call ≡ failed → Reason env db req call
  no_user : env.systems_json req.user_id ≡ none → Reason env db req call
  not_granted :
      (c : Call) (sj : NullString)
      → get_call env.fails db call ≡ found c
      → env.systems_json req.user_id ≡ some sj
      → has_system_access (parse_system_grants env.grants_json sj) c.system_id c.talkgroup_id
        ≡ false
      → Reason env db req call

-- No change, with a reason; or exactly the mark of the pair set, or exactly it cleared.
abbrev pub Flips : MarkEnv → Db → MarkRequest → ℕ → Db × Toggled → Type 0
Flips env db req call (db', refused status message) = (db' ≡ db) × Reason env db req call
Flips env db req call (db', marked id) =
    (is_marked db call req.user_id ≡ false)
    × (any (λ c. c.id == call) db.calls ≡ true)
    × (db' ≡ record db { bookmarks = db'.bookmarks; next_id = db'.next_id })
    × ((c u : ℕ) → is_marked db' c u ≡ (is_marked db c u || is_pair call req.user_id c u))
Flips env db req call (db', unmarked) =
    (is_marked db call req.user_id ≡ true)
    × (db' ≡ record db { bookmarks = db'.bookmarks })
    × ((c u : ℕ) → is_marked db' c u ≡ (is_marked db c u && not (is_pair call req.user_id c u)))

toggle-Flips :
    (env : MarkEnv) (db : Db) (req : MarkRequest) (call : ℕ)
    → Flips env db req call (toggle env db call req.user_id)
unfolding toggle
toggle-Flips env db req call = elim (Bool-cases (env.fails q_get_bookmark)) [
  | inl e ↦ let why = query_failed q_get_bookmark e in rw e (refl, why)
  | inr e ↦ elim (Bool-cases (is_marked db call req.user_id)) [
    | inl m ↦ elim (Bool-cases (env.fails q_delete_bookmark)) [
      | inl f ↦ let why = query_failed q_delete_bookmark f in rw (e, m, f) (refl, why)
      | inr f ↦ rw (e, m, f) (m, refl, λ c u. any-clear call req.user_id c u db.bookmarks)
    ]
    | inr m ↦ elim (Bool-cases (env.fails q_create_bookmark)) [
      | inl f ↦ let why = query_failed q_create_bookmark f in rw (e, m, f) (refl, why)
      | inr f ↦ elim (Bool-cases (any (λ c. c.id == call) db.calls)) [
        | inl k ↦ rw (e, m, f, k) (m, k, refl, λ c u. any-snoc call req.user_id c u db.bookmarks)
        | inr k ↦ let why = no_such_call k in rw (e, m, f, k) (refl, why)
      ]
    ]
  ]
]

-- A change is made for who may make it.
abbrev pub Allowed : MarkEnv → Db → MarkRequest → ℕ → Toggled → Type 0
Allowed env db req call (refused status message) = Unit
Allowed env db req call (marked id) = MayMark env db req call
Allowed env db req call unmarked = MayMark env db req call

MayMark-Allowed :
    (env : MarkEnv) (db : Db) (req : MarkRequest) (call : ℕ) (t : Toggled)
    → MayMark env db req call
    → Allowed env db req call t
MayMark-Allowed env db req call (refused status message) m = tt
MayMark-Allowed env db req call (marked id) m = m
MayMark-Allowed env db req call unmarked m = m

-- A listener is refused for a reason, or may mark the call.
abbrev IsJudged : MarkEnv → Db → MarkRequest → ℕ → Option (ℕ × String) → Type 0
IsJudged env db req call none = MayMark env db req call
IsJudged env db req call (some answer) = Reason env db req call

refusal_of-IsJudged :
    (env : MarkEnv) (db : Db) (req : MarkRequest) (call : ℕ) (l : Lookup Call)
    (sj : Option NullString)
    → get_call env.fails db call ≡ l
    → env.systems_json req.user_id ≡ sj
    → IsJudged env db req call (refusal_of env l sj)
refusal_of-IsJudged env db req call no_rows sj k j = no_row k
refusal_of-IsJudged env db req call failed sj k j = no_answer k
refusal_of-IsJudged env db req call (found c) none k j = no_user j
refusal_of-IsJudged env db req call (found c) (some sj) k j =
    elim (Bool-cases
      (has_system_access (parse_system_grants env.grants_json sj) c.system_id c.talkgroup_id)) [
        | inl e ↦ let may : MayMark env db req call = inr (c, sj, k, j, e) in rw e may
        | inr e ↦ let why = not_granted c sj k j e in rw e why
      ]

abbrev pub Toggles : MarkEnv → Db → MarkRequest → Option ℕ → Db × Toggled → Type 0
Toggles env db req none out = (out.0 ≡ db) × (out.1 ≡ refused 400 "invalid request body")
Toggles env db req (some call) out = Flips env db req call out × Allowed env db req call out.1

toggle-Toggles :
    (env : MarkEnv) (db : Db) (req : MarkRequest) (call : ℕ)
    → MayMark env db req call
    → Toggles env db req (some call) (toggle env db call req.user_id)
toggle-Toggles env db req call may =
    (toggle-Flips env db req call, MayMark-Allowed env db req call _ may)

by_role-Toggles :
    (env : MarkEnv) (db : Db) (req : MarkRequest) (call : ℕ) (admin : Bool)
    (refusal : Option (ℕ × String))
    → str_eq req.role "admin" ≡ admin
    → IsJudged env db req call refusal
    → Toggles env db req (some call) (
        if admin
        then toggle env db call req.user_id
        else refuse_or_toggle env db call req.user_id refusal)
by_role-Toggles env db req call true refusal e h = toggle-Toggles env db req call (inl e)
by_role-Toggles env db req call false none e h = toggle-Toggles env db req call h
by_role-Toggles env db req call false (some (status, message)) e h = ((refl, h), tt)

bound_request-Toggles :
    (env : MarkEnv) (db : Db) (req : MarkRequest) (o : Option ℕ)
    → Toggles env db req o (bound_request env db req o)
bound_request-Toggles env db req none = (refl, refl)
bound_request-Toggles env db req (some call) =
    by_role-Toggles env db req call _ _ refl (refusal_of-IsJudged env db req call _ _ refl refl)

-- For every request: a body that does not bind is refused with 400. Else a refusal changes nothing
-- and has a reason: a query fails, the call is not there, or its talkgroup is not granted. A
-- bookmark is set only where the user had none on the call and the call exists, and then exactly
-- that user's on that call is set; it is cleared only where the user had one, and then exactly that
-- one is cleared; no other table of the model changes. In both cases the user is an administrator
-- or the call is one that the user's grants let through.
pub post_toggle_bookmark-Toggles :
    (env : MarkEnv) (db : Db) (req : MarkRequest)
    → Toggles env db req req.call_id (post_toggle_bookmark env db req)
unfolding post_toggle_bookmark
post_toggle_bookmark-Toggles env db req = bound_request-Toggles env db req req.call_id
