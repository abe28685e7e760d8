-- ===== src/Downstream/Secrets.antt =====
-- Stored secrets: backend/internal/auth/crypto.go. Byte strings are lists; HKDF, AES-GCM and base64
-- are parameters.
use Prim.Native.String.{slice, len}
use text.Mathlib.Text.{starts_with}
use open_scanner.Base.{
  ℕ, Bool, not, Option, none, some, String, List, ◌++◌, if◌then◌else◌, str_eq, concat, ltb, length,
  take, drop,
}

pub record Cipher : Type 0 where
  -- the AES key of a passphrase; `none` is an error
  pub derive : String → Option (List ℕ)
  -- with a key and a nonce; opening fails on a wrong tag
  pub seal : List ℕ → List ℕ → String → List ℕ
  pub open_sealed : List ℕ → List ℕ → List ℕ → Option String
  pub nonce_size : ℕ
  pub encode : List ℕ → String
  pub decode : String → Option (List ℕ)

abbrev pub encrypted_prefix : String
encrypted_prefix = "enc::"

abbrev pub is_encrypted : String → Bool
is_encrypted value = starts_with value encrypted_prefix

-- `deriveKey`
abbrev pub derive_key : Cipher → String → Option (List ℕ)
derive_key c passphrase = if str_eq passphrase "" then none else c.derive passphrase

-- `EncryptString`, with the nonce that the random source gave.
unfoldable pub encrypt_string : Cipher → List ℕ → String → String → Option String
encrypt_string c nonce plaintext passphrase = elim (derive_key c passphrase) [
  | none ↦ none
  | some key ↦ some (concat encrypted_prefix (c.encode (nonce ++ c.seal key nonce plaintext)))
]

abbrev pub opened : Cipher → List ℕ → Option (List ℕ) → Option String
opened c key none = none
opened c key (some raw) =
    if ltb (length raw) c.nonce_size
    then none
    else c.open_sealed key (take c.nonce_size raw) (drop c.nonce_size raw)

-- `DecryptString`: a value without the prefix is returned as it is.
unfoldable pub decrypt_string : Cipher → String → String → Option String
decrypt_string c value passphrase =
    if not (is_encrypted value) then some value else elim (derive_key c passphrase) [
      | none ↦ none
      | some key ↦ opened c key (c.decode (slice value (len encrypted_prefix) (len value)))
    ]
