-- ===== src/Grants.antt =====
-- Listener grants, which the program implements three times: backend/internal/auth/grants.go
-- (bookmarks), `Client.CanReceive` and `parseGrants` of backend/internal/ws/client.go (live
-- feed), and backend/internal/handler/shared/grants.go (REST). Ids are compared and nothing else.
-- A Go slice that may be nil is an `Option`: `none` is nil. `encoding/json` and `strings.TrimSpace`
-- are the fields of `Json`.
pub mod Agree
use open_scanner.Base.{
  ℕ, Bool, true, false, not, ◌&&◌, ◌||◌, Option, none, some, String, List, [], ◌∷◌, ◌==◌, str_eq,
  if◌then◌else◌,
}

pub record SystemGrant : Type 0 where
  pub id : ℕ
  pub talkgroups : List ℕ

abbrev pub Slice : Type 0
Slice = Option (List SystemGrant)

-- `json.Unmarshal` into a slice of grants (`none` is an error, `some none` the JSON null), and
-- `strings.TrimSpace(s) == ""`.
pub record Json : Type 0 where
  pub unmarshal : String → Option Slice
  pub is_blank : String → Bool

-- sql.NullString
pub record NullString : Type 0 where
  pub string : String
  pub valid : Bool

abbrev pub elements : Slice → List SystemGrant
elements none = []
elements (some gs) = gs

abbrev parsed : Option Slice → Slice
parsed none = none
parsed (some gs) = gs

-- `ParseSystemGrants`
unfoldable pub parse_system_grants : Json → NullString → Slice
parse_system_grants j sj =
    if not sj.valid || j.is_blank sj.string then none else parsed (j.unmarshal sj.string)

-- The inner loop of `HasSystemAccess`, over `g.Talkgroups`.
unfoldable pub has_talkgroup : ℕ → List ℕ → Bool
has_talkgroup talkgroup [] = false
has_talkgroup talkgroup (tg ∷ tgs) = if tg == talkgroup then true else has_talkgroup talkgroup tgs

abbrev is_empty {ℓ} : {A : Type ℓ} → List A → Bool
is_empty [] = true
is_empty (x ∷ xs) = false

-- The outer one: another system's grant is skipped, a grant with no talkgroups lets everything
-- through, one with talkgroups lets its own through, and a talkgroup that it does not list goes on to
-- the next grant.
unfoldable pub scan : List SystemGrant → ℕ → ℕ → Bool
unfolding has_talkgroup
scan [] system talkgroup = false
scan (g ∷ gs) system talkgroup =
    let later = scan gs system talkgroup in
    if not (g.id == system)
    then later
    else if is_empty g.talkgroups
    then true
    else if has_talkgroup talkgroup g.talkgroups
    then true
    else later

-- `HasSystemAccess`
unfoldable pub has_system_access : Slice → ℕ → ℕ → Bool
unfolding scan
has_system_access grants system talkgroup =
    if is_empty (elements grants) then true else scan (elements grants) system talkgroup

-- `parseGrants` of the WebSocket client.
unfoldable pub parse_grants : Json → NullString → Slice
parse_grants j sj =
    if not sj.valid || str_eq sj.string "" then none else parsed (j.unmarshal sj.string)

-- The loops of `CanReceive`.
unfoldable pub receives_talkgroup : ℕ → List ℕ → Bool
receives_talkgroup talkgroup [] = false
receives_talkgroup talkgroup (tg ∷ tgs) =
    if tg == talkgroup then true else receives_talkgroup talkgroup tgs

unfoldable pub scan_received : List SystemGrant → ℕ → ℕ → Bool
unfolding receives_talkgroup
scan_received [] system talkgroup = false
scan_received (g ∷ gs) system talkgroup =
    let later = scan_received gs system talkgroup in
    if not (g.id == system)
    then later
    else if is_empty g.talkgroups
    then true
    else if receives_talkgroup talkgroup g.talkgroups
    then true
    else later

-- `Client.CanReceive`, on `c.grants`.
unfoldable pub can_receive : Slice → ℕ → ℕ → Bool
unfolding scan_received
can_receive grants system talkgroup =
    if is_empty (elements grants) then true else scan_received (elements grants) system talkgroup

-- What `LoadUserGrants` asks of the request and the database: the role and user id in the context,
-- and the `systems_json` of the user's row, `none` where the query fails.
pub record Viewer : Type 0 where
  pub role : String
  pub user_id : Option ℕ
  pub systems_json : ℕ → Option NullString

abbrev nil_if_empty : Slice → Slice
nil_if_empty none = none
nil_if_empty (some []) = none
nil_if_empty (some (g ∷ gs)) = some (g ∷ gs)

abbrev load_row : Json → Option NullString → Slice
load_row j none = none
load_row j (some sj) =
    if not sj.valid || str_eq sj.string ""
    then none
    else nil_if_empty (parsed (j.unmarshal sj.string))

abbrev load_user : Json → Viewer → Option ℕ → Slice
load_user j v none = none
load_user j v (some uid) = load_row j (v.systems_json uid)

-- `LoadUserGrants`
unfoldable pub load_user_grants : Json → Viewer → Slice
load_user_grants j v = if str_eq v.role "admin" then none else load_user j v v.user_id

-- The loops of `IsGranted`.
unfoldable pub grants_talkgroup : ℕ → List ℕ → Bool
grants_talkgroup talkgroup [] = false
grants_talkgroup talkgroup (tg ∷ tgs) =
    if tg == talkgroup then true else grants_talkgroup talkgroup tgs

unfoldable pub scan_granted : List SystemGrant → ℕ → ℕ → Bool
unfolding grants_talkgroup
scan_granted [] system talkgroup = false
scan_granted (g ∷ gs) system talkgroup =
    let later = scan_granted gs system talkgroup in
    if not (g.id == system)
    then later
    else if is_empty g.talkgroups
    then true
    else if grants_talkgroup talkgroup g.talkgroups
    then true
    else later

-- `IsGranted`: here only nil stands for everything.
unfoldable pub is_granted : Slice → ℕ → ℕ → Bool
unfolding scan_granted
is_granted none system talkgroup = true
is_granted (some gs) system talkgroup = scan_granted gs system talkgroup
