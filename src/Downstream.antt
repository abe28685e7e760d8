-- ===== src/Downstream.antt =====
-- The downstream pusher, backend/internal/downstream/pusher.go: the rows of `downstreams` and the
-- filter on their grants.
pub mod Secrets
pub mod Fields
pub mod Push
pub mod Service
pub mod Arrival
pub mod Received
pub mod Backoff
use open_scanner.Base.{
  ℕ, Bool, true, false, not, ◌&&◌, ◌||◌, Option, none, some, String, List, [], ◌∷◌, if◌then◌else◌,
  ℤ, eq_ℤ, any,
}
use open_scanner.Grants.{NullString}

pub record Downstream : Type 0 where
  pub id : ℕ
  pub url : String
  pub api_key : String
  pub systems_json : NullString

-- `systemGrant`, of radio ids.
pub record PushGrant : Type 0 where
  pub id : ℤ
  pub talkgroups : List ℤ

-- `json.Unmarshal` into a slice of grants (`none` is an error, `some none` the JSON null), and
-- `strings.TrimSpace(s) == ""`.
pub record PushJson : Type 0 where
  pub unmarshal : String → Option (Option (List PushGrant))
  pub is_blank : String → Bool

abbrev pub nil_on_error : Option (Option (List PushGrant)) → Option (List PushGrant)
nil_on_error none = none
nil_on_error (some gs) = gs

-- `parseGrants`: `none` is nil.
unfoldable pub parse_push_grants : PushJson → NullString → Option (List PushGrant)
parse_push_grants j sj =
    if not sj.valid || j.is_blank sj.string then none else nil_on_error (j.unmarshal sj.string)

abbrev pub no_talkgroups : List ℤ → Bool
no_talkgroups [] = true
no_talkgroups (t ∷ ts) = false

unfoldable pub scan_grants : List PushGrant → ℤ → ℤ → Bool
scan_grants [] system talkgroup = false
scan_grants (g ∷ gs) system talkgroup =
    let later = scan_grants gs system talkgroup in
    if not (eq_ℤ g.id system)
    then later
    else if no_talkgroups g.talkgroups
    then true
    else if any (λ tg. eq_ℤ tg talkgroup) g.talkgroups
    then true
    else later

-- `isGranted`: nil lets everything through, an empty slice nothing.
unfoldable pub is_push_granted : Option (List PushGrant) → ℤ → ℤ → Bool
unfolding scan_grants
is_push_granted none system talkgroup = true
is_push_granted (some gs) system talkgroup = scan_grants gs system talkgroup
