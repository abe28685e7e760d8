-- ===== src/Tests/AccessTests.antt =====
-- Grants, identities, API keys and rate limits at concrete inputs.
use open_scanner.Base.{
  ℕ, ◌≡◌, ◌≢◌, ◌↔◌, ◌⊎◌, refl, true, false, not, ◌&&◌, none, some, String, List, [], ◌∷◌, arith,
  pos, str_eq, eq_iff, if◌then◌else◌, ◌≤◌,
}
use open_scanner.Grants.{
  SystemGrant, Json, NullString, elements, has_system_access, parse_system_grants, parse_grants,
  can_receive, Viewer, load_user_grants, is_granted,
}
use open_scanner.Grants.Agree.{has_system_access_iff, filters_agree, SomeCovers}
use open_scanner.Auth.Tokens.{new_token_tracker}
use open_scanner.Session.{Claims}
use open_scanner.Middleware.Identity.{
  Gate, next, has_bearer, jwt_auth, jwt_claims, optional_jwt_auth, optional_jwt_or_session_auth,
  is_same_site,
}
use open_scanner.Middleware.Identity.Agree.{identity_agrees, forgive}
use open_scanner.Middleware.ApiKey.{
  KeyEnv, KeyRow, KeyRequest, api_key_auth, admitted, has_jwt_shape,
}
use open_scanner.Middleware.ApiKey.Admission.{api_key_auth_iff, Admits}
use open_scanner.Middleware.ApiKey.Shape.{has_jwt_shape_iff, IsThreeParts}
use open_scanner.Middleware.IpLimit.{IpBucket, find_bucket}
use open_scanner.Middleware.IpLimit as IpLimit
use open_scanner.Middleware.IpLimit.Window.{admitted-window}

-- System 1, talkgroup 5 only; all of system 2.
abbrev grants : List SystemGrant
grants = record { id = 1; talkgroups = 5 ∷ [] } ∷ record { id = 2; talkgroups = [] } ∷ []

has_system_access_iff_example :
    (has_system_access (some grants) 1 6 ≡ true)
    ↔ ((elements (some grants) ≡ []) ⊎ SomeCovers (elements (some grants)) 1 6)
has_system_access_iff_example = has_system_access_iff (some grants) 1 6

-- A decoder that knows one text.
abbrev json : Json
json = record {
  unmarshal = λ s. if str_eq s "[..]" then some (some grants) else none;
  is_blank = λ s. str_eq s "";
}

abbrev stored : NullString
stored = record { string = "[..]"; valid = true }

abbrev viewer : Viewer
viewer = record { role = "listener"; user_id = some 7; systems_json = λ uid. some stored }

blank-fails : (s : String) → json.is_blank s ≡ true → json.unmarshal s ≡ none
blank-fails s e = rw ((eq_iff s "").0 e) refl

listener-no_admin : viewer.role ≢ "admin"
listener-no_admin e = let k : false ≡ true = (eq_iff "listener" "admin").1 e in cc

filters_agree_example :
    (is_granted (load_user_grants json viewer) 1 6 ≡ can_receive (parse_grants json stored) 1 6)
    × (can_receive (parse_grants json stored) 1 6
        ≡ has_system_access (parse_system_grants json stored) 1 6)
filters_agree_example =
    filters_agree json viewer 7 stored 1 6 blank-fails refl listener-no_admin refl refl

abbrev claims : Claims
claims = record {
  user_id = 7;
  username = "ann";
  role = "listener";
  account_exp = pos 0;
  jti = "a";
  issued_at = 0;
  expires_at = 900_000_000_000;
}

abbrev gate : Gate
gate = record { now = 1; verify = λ token. if str_eq token "t" then some claims else none }

identity_agrees_example :
    (optional_jwt_auth gate new_token_tracker "Bearer t"
      ≡ forgive (jwt_auth gate new_token_tracker "Bearer t"))
    × (optional_jwt_or_session_auth gate new_token_tracker "Bearer t" "" "" ≡ (
        if has_bearer "Bearer t"
        then forgive (jwt_auth gate new_token_tracker "Bearer t")
        else if not (str_eq "" "") && is_same_site ""
        then forgive (jwt_claims gate new_token_tracker (gate.verify ""))
        else (new_token_tracker, next none)))
identity_agrees_example = identity_agrees gate new_token_tracker "Bearer t" "" ""

abbrev row : KeyRow
row = record { id = 3; ident = none; call_rate_limit = none; disabled = 0 }

abbrev key_env : KeyEnv
key_env = record {
  trim_space = λ s. s;
  sha256_hex = λ s. s;
  row_of = λ hash. if str_eq hash "k" then some row else none;
}

abbrev key_request : KeyRequest
key_request = record {
  api_version = "";
  authorization = "";
  x_api_key = "k";
  query_key = "";
  form_key = "";
}

api_key_auth_iff_example :
    (api_key_auth key_env key_request ≡ admitted 3 none none)
    ↔ Admits key_env key_request 3 none none
api_key_auth_iff_example = api_key_auth_iff key_env key_request 3 none none

-- "a.b.c", in twenty bytes or more.
has_jwt_shape_iff_example :
    (has_jwt_shape 20 (97 ∷ 46 ∷ 98 ∷ 46 ∷ 99 ∷ []) ≡ true)
    ↔ ((20 ≤ 20) × IsThreeParts (97 ∷ 46 ∷ 98 ∷ 46 ∷ 99 ∷ []))
has_jwt_shape_iff_example = has_jwt_shape_iff 20 (97 ∷ 46 ∷ 98 ∷ 46 ∷ 99 ∷ [])

abbrev bucket : IpBucket
bucket = record { window_start = 1; count = 1 }

abbrev burst : List (String × ℕ)
burst = ("a", 2) ∷ ("b", 3) ∷ ("a", 4) ∷ ("a", 5) ∷ []

admitted-window_example : IpLimit.admitted 3 (("a", bucket) ∷ []) "a" burst ≡ 2
unfolding find_bucket
admitted-window_example = admitted-window 3 (("a", bucket) ∷ []) "a" bucket burst refl (
  (omega arith, omega arith),
  ((omega arith, omega arith), ((omega arith, omega arith), ((omega arith, omega arith), tt))),
)
