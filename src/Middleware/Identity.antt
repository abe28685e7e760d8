-- ===== src/Middleware/Identity.antt =====
-- `JWTAuth`, `OptionalJWTAuth`, `OptionalJWTOrSessionAuth` and `RequireAdmin` of
-- backend/internal/middleware/auth.go. `ParseToken` (signature and expiry checks of the JWT library)
-- is the field `verify` of the gate, at the request's time. A missing header or cookie reads as "".
pub mod Agree
pub mod Revoked
use open_scanner.Base.{
  ℕ, ◌/◌, Bool, true, false, not, ◌&&◌, ◌||◌, Option, none, some, String, ltb_ℤ, ℤ, pos, str_eq,
  if◌then◌else◌,
}
use Prim.Native.String.{len, slice}
use text.Mathlib.Text.{starts_with}
use open_scanner.Auth.Tokens.{TokenTracker, is_revoked}
use open_scanner.Session.{Claims, second}

pub record Gate : Type 0 where
  -- nanoseconds
  pub now : ℕ
  pub verify : String → Option Claims

-- What `applyClaimsToContext` puts into the request's context.
pub record Identity : Type 0 where
  pub user_id : ℕ
  pub username : String
  pub role : String
  pub jti : String

abbrev pub identity_of : Claims → Identity
identity_of c = record { user_id = c.user_id; username = c.username; role = c.role; jti = c.jti }

pub data Verdict : Type 0 where
  abort : ℕ → String → Verdict
  -- `c.Next()`, with the identity in the context, if any
  next : Option Identity → Verdict

abbrev pub has_bearer : String → Bool
has_bearer header = starts_with header "Bearer "

-- strings.TrimPrefix(header, "Bearer "), behind the test.
abbrev pub bearer_token : String → String
bearer_token header = slice header 7 (len header)

-- `claims.AccountExp > 0 && time.Now().Unix() > claims.AccountExp`
abbrev pub is_account_over : Gate → Claims → Bool
is_account_over g c = ltb_ℤ (pos 0) c.account_exp && ltb_ℤ c.account_exp (pos (g.now / second))

abbrev jwt_checked : Gate → Claims → TokenTracker × Bool → TokenTracker × Verdict
jwt_checked g c (tr, revoked) =
    if revoked
    then (tr, abort 401 "token has been revoked")
    else if is_account_over g c
    then (tr, abort 401 "account expired")
    else (tr, next (some (identity_of c)))

abbrev pub jwt_claims : Gate → TokenTracker → Option Claims → TokenTracker × Verdict
jwt_claims g tr none = (tr, abort 401 "invalid or expired token")
jwt_claims g tr (some c) = jwt_checked g c (is_revoked tr c.jti g.now)

unfoldable pub jwt_auth : Gate → TokenTracker → String → TokenTracker × Verdict
jwt_auth g tr header =
    if not (has_bearer header)
    then (tr, abort 401 "authorization header required")
    else jwt_claims g tr (g.verify (bearer_token header))

abbrev optional_checked : Gate → Claims → TokenTracker × Bool → TokenTracker × Verdict
optional_checked g c (tr, revoked) =
    if revoked
    then (tr, next none)
    else if is_account_over g c
    then (tr, next none)
    else (tr, next (some (identity_of c)))

abbrev optional_claims : Gate → TokenTracker → Option Claims → TokenTracker × Verdict
optional_claims g tr none = (tr, next none)
optional_claims g tr (some c) = optional_checked g c (is_revoked tr c.jti g.now)

unfoldable pub optional_jwt_auth : Gate → TokenTracker → String → TokenTracker × Verdict
optional_jwt_auth g tr header =
    if not (has_bearer header)
    then (tr, next none)
    else optional_claims g tr (g.verify (bearer_token header))

-- `claimsValid`
abbrev valid_checked : Gate → Claims → TokenTracker × Bool → TokenTracker × Bool
valid_checked g c (tr, revoked) =
    if revoked then (tr, false) else if is_account_over g c then (tr, false) else (tr, true)

unfoldable pub claims_valid : Gate → TokenTracker → Claims → TokenTracker × Bool
claims_valid g tr c = valid_checked g c (is_revoked tr c.jti g.now)

abbrev apply_if : Claims → TokenTracker × Bool → TokenTracker × Verdict
apply_if c (tr, ok) = (tr, next (if ok then some (identity_of c) else none))

abbrev session_claims : Gate → TokenTracker → Option Claims → TokenTracker × Verdict
session_claims g tr none = (tr, next none)
session_claims g tr (some c) = apply_if c (claims_valid g tr c)

-- The values of Sec-Fetch-Site for which the cookie is honoured.
abbrev pub is_same_site : String → Bool
is_same_site site =
    str_eq site "" || str_eq site "same-origin" || str_eq site "same-site" || str_eq site "none"

-- The header first; without one the cookie `os_session`, for a request of the same site.
unfoldable pub optional_jwt_or_session_auth :
    Gate → TokenTracker → String → String → String → TokenTracker × Verdict
unfolding claims_valid
optional_jwt_or_session_auth g tr header cookie site =
    if has_bearer header
    then session_claims g tr (g.verify (bearer_token header))
    else if str_eq cookie ""
    then (tr, next none)
    else if not (is_same_site site)
    then (tr, next none)
    else session_claims g tr (g.verify cookie)

abbrev role_in : Option Identity → String
role_in none = ""
role_in (some i) = i.role

-- `RequireAdmin`, on what the context holds.
unfoldable pub require_admin : Option Identity → Verdict
require_admin who =
    if not (str_eq (role_in who) "admin") then abort 403 "admin access required" else next who

-- Middlewares in a row: an abort ends the chain.
abbrev then_admin : TokenTracker × Verdict → TokenTracker × Verdict
then_admin (tr, abort status message) = (tr, abort status message)
then_admin (tr, next who) = (tr, require_admin who)

-- `JWTAuth` with `RequireAdmin` behind it, as the admin routes chain them.
unfoldable pub admin_gate : Gate → TokenTracker → String → TokenTracker × Verdict
unfolding require_admin
admin_gate g tr header = then_admin (jwt_auth g tr header)
