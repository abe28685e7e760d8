-- ===== src/Middleware/ApiKey/Admission.antt =====
-- Who `APIKeyAuth` of backend/internal/middleware/auth.go lets in.
use open_scanner.Base.{
  ℕ, ◌≤◌, ◌≡◌, ◌≢◌, ◌↔◌, ◌∙◌, refl, inl, inr, true, false, ◌&&◌, Option, none, some, String, arith,
  ◌==◌, ltb, str_eq, eq_iff, if◌then◌else◌, Bool-cases,
}
use Prim.Native.String.{len}
use open_scanner.Middleware.ApiKey.{
  KeyRow, KeyEnv, KeyRequest, KeyVerdict, denied, denied_v1, admitted, is_v1, bearer_key,
  legacy_key, row_verdict, check_key, api_key_auth, looks_like_jwt,
}

-- The one key that the request's version allows.
abbrev pub key_of : KeyEnv → KeyRequest → String
key_of env req = if is_v1 req then bearer_key env req else legacy_key req

-- A key that is there, of at most 128 bytes, and whose hash has an enabled row.
pub record IsGood (env : KeyEnv) (key : String) (row : KeyRow) : Type 0 where
  pub filled : key ≢ ""
  pub short : len key ≤ 128
  pub known : env.row_of (env.sha256_hex key) ≡ some row
  pub enabled : row.disabled ≡ 0

abbrev pub verdict_of : KeyRow → KeyVerdict
verdict_of row = admitted row.id row.ident row.call_rate_limit

row_verdict-admitted :
    (o : Option KeyRow) (id : ℕ) (ident : Option String) (rate : Option ℕ)
    → row_verdict o ≡ admitted id ident rate
    → (row : KeyRow) × (o ≡ some row)
      × (row.disabled ≡ 0)
      × (verdict_of row ≡ admitted id ident rate)
row_verdict-admitted none id ident rate h = absurd (cc)
row_verdict-admitted (some row) id ident rate h = elim (Bool-cases (row.disabled == 0)) [
  | inl e ↦ (row, refl, ground arith, rw e at h)
  | inr e ↦ absurd (no (rw e at h))
]
  where
    no : denied "API key is disabled" ≡ admitted id ident rate → ⊥
    no k = cc

check_key-admitted :
    (env : KeyEnv) (key : String) (id : ℕ) (ident : Option String) (rate : Option ℕ)
    → check_key env key ≡ admitted id ident rate
    → (row : KeyRow) × IsGood env key row × (verdict_of row ≡ admitted id ident rate)
unfolding check_key
check_key-admitted env key id ident rate h = elim (Bool-cases (str_eq key "")) [
  | inl e ↦ absurd (no "API key required" (rw e at h))
  | inr e ↦ elim (Bool-cases (ltb 128 (len key))) [
    | inl l ↦ absurd (no "invalid API key" (rw (e, l) at h))
    | inr l ↦
        let (row, known, enabled, same) = row_verdict-admitted _ id ident rate (rw (e, l) at h) in
        (
          row,
          record {
            filled = λ k. different e k;
            short = ground arith;
            known = known;
            enabled = enabled;
          },
          same,
        )
  ]
]
  where
    no : (m : String) → denied m ≡ admitted id ident rate → ⊥
    no m k = cc

    different : str_eq key "" ≡ false → key ≡ "" → ⊥
    different a b = ground (arith, eq_iff key "")

good-check_key :
    (env : KeyEnv) (key : String) (row : KeyRow)
    → IsGood env key row
    → check_key env key ≡ verdict_of row
unfolding check_key
good-check_key env key row g = ground (arith, eq_iff key "", g.filled, g.short, g.known, g.enabled)

-- The request's key, its row, and what the context gets.
abbrev pub Admits : KeyEnv → KeyRequest → ℕ → Option String → Option ℕ → Type 0
Admits env req id ident rate =
    (row : KeyRow) × IsGood env (key_of env req) row
    × (verdict_of row ≡ admitted id ident rate)
    × ((is_v1 req && looks_like_jwt (key_of env req)) ≡ false)

-- A key without a JWT's shape, or a legacy request: the check decides.
to_check :
    (env : KeyEnv) (req : KeyRequest)
    → (is_v1 req && looks_like_jwt (key_of env req)) ≡ false
    → api_key_auth env req ≡ check_key env (key_of env req)
unfolding api_key_auth
to_check env req h = elim (Bool-cases (is_v1 req)) [
  | inr old ↦ rw old
  | inl v1 ↦ elim (Bool-cases (looks_like_jwt (bearer_key env req))) [
    | inr plain ↦ rw (v1, plain) (ground arith)
    | inl shaped ↦ absurd (clash v1 shaped)
  ]
]
  where
    clash : is_v1 req ≡ true → looks_like_jwt (bearer_key env req) ≡ true → ⊥
    clash v1 shaped =
        let k : (true && looks_like_jwt (bearer_key env req)) ≡ false = rw v1 at h in ground arith

-- A v1 request with a JWT for a key is turned away.
shaped-refused :
    (env : KeyEnv) (req : KeyRequest) (id : ℕ) (ident : Option String) (rate : Option ℕ)
    → (is_v1 req && looks_like_jwt (key_of env req)) ≡ true
    → api_key_auth env req ≡ admitted id ident rate
    → ⊥
unfolding api_key_auth check_key
shaped-refused env req id ident rate h k = elim (Bool-cases (is_v1 req)) [
  | inr old ↦ absurd (legacy old)
  | inl v1 ↦ elim (Bool-cases (str_eq (bearer_key env req) "")) [
    | inl e ↦ empty (rw (v1, e) at k)
    | inr e ↦ elim (Bool-cases (looks_like_jwt (bearer_key env req))) [
      | inl shaped ↦ envelope (rw (v1, e, shaped) at k)
      | inr plain ↦ absurd (open_key v1 plain)
    ]
  ]
]
  where
    legacy : is_v1 req ≡ false → ⊥
    legacy old = let f : false ≡ true = rw old at h in cc

    open_key : is_v1 req ≡ true → looks_like_jwt (bearer_key env req) ≡ false → ⊥
    open_key v1 plain = let f : false ≡ true = rw (v1, plain) at h in cc

    empty : denied "API key required" ≡ admitted id ident rate → ⊥
    empty e = cc

    envelope :
        denied_v1 "invalid_credentials" "API key required (Authorization: Bearer)"
          ≡ admitted id ident rate
        → ⊥
    envelope e = cc

-- A request is let in exactly when the key that its version allows (the Bearer token on v1, else
-- header, query or form) is there, has at most 128 bytes and hashes to an enabled row, and, on v1,
-- does not have the shape of a JWT; it is then known by that row.
pub api_key_auth_iff :
    (env : KeyEnv) (req : KeyRequest) (id : ℕ) (ident : Option String) (rate : Option ℕ)
    → (api_key_auth env req ≡ admitted id ident rate) ↔ Admits env req id ident rate
api_key_auth_iff env req id ident rate = (forth, back)
  where
    forth : api_key_auth env req ≡ admitted id ident rate → Admits env req id ident rate
    forth h = elim (Bool-cases (is_v1 req && looks_like_jwt (key_of env req))) [
      | inl shaped ↦ absurd (shaped-refused env req id ident rate shaped h)
      | inr plain ↦
          let (row, good, same) =
            check_key-admitted env (key_of env req) id ident rate
              (rw (to_check env req plain) at h) in
          (row, good, same, plain)
    ]

    back : Admits env req id ident rate → api_key_auth env req ≡ admitted id ident rate
    back (row, good, same, plain) =
        to_check env req plain ∙ good-check_key env (key_of env req) row good ∙ same
