-- ===== src/Crypto/Columns.antt =====
-- app/core/crypto.py: what the encrypted columns store and give back. MultiFernet and JSON are parameters:
-- `encrypt` with the list of keys and the random bytes of one call, `decrypt`, which may refuse a text,
-- `dumps` and `loads`.
use ats_smart_backend.Prelude.{
  codes, starts_with, ℕ, Bool, false, Option, none, some, if◌then◌else◌,
}
use ats_smart_backend.Exec.{Result, ok, raised, and_then}
use ats_smart_backend.Search.{Text}

pub data CryptoError : Type 0 where
  pii_decryption_error : CryptoError
  json_decode_error : CryptoError

abbrev pub fernet_prefix : Text
fernet_prefix = codes "gAAAAA"

unfoldable pub is_encrypted : Option Text → Bool
is_encrypted none = false
is_encrypted (some value) = starts_with fernet_prefix value

-- A library that signs and encrypts with the first of its keys, and decrypts with any of them
pub record Fernet (Keys : Type 0) : Type 0 where
  pub encrypt : Keys → ℕ → Text → Text
  pub decrypt : Keys → Text → Option Text

pub record JsonText (Json : Type 0) : Type 0 where
  pub dumps : Json → Text
  pub loads : Text → Option Json

module _ {Keys : Type 0} (fernet : Fernet Keys) where
  unfoldable pub encrypt_text : Keys → ℕ → Option Text → Option Text
  encrypt_text keys random none = none
  encrypt_text keys random (some value) = some (fernet.encrypt keys random value)

  unfoldable pub decrypt_text : Keys → Option Text → Result CryptoError (Option Text)
  decrypt_text keys none = ok none
  decrypt_text keys (some value) = elim (fernet.decrypt keys value) [
    | none ↦ raised pii_decryption_error
    | some text ↦ ok (some text)
  ]

  -- A value that an older version stored is no token, and is read as it is.
  unfoldable pub decrypt_stored : Keys → Option Text → Result CryptoError (Option Text)
  unfolding decrypt_text is_encrypted
  decrypt_stored keys value = if is_encrypted value then decrypt_text keys value else ok value

  module _ {Json : Type 0} (json : JsonText Json) where
    unfoldable pub load_json : Option Text → Result CryptoError (Option Json)
    load_json none = ok none
    load_json (some text) = elim (json.loads text) [
      | none ↦ raised json_decode_error
      | some value ↦ ok (some value)
    ]

    -- `EncryptedJSON.process_bind_param`
    unfoldable pub bind_json : Keys → ℕ → Option Json → Option Text
    unfolding encrypt_text
    bind_json keys random none = none
    bind_json keys random (some value) = encrypt_text keys random (some (json.dumps value))

    -- `EncryptedJSON.process_result_value`
    unfoldable pub result_json : Keys → Option Text → Result CryptoError (Option Json)
    unfolding decrypt_stored load_json and_then
    result_json keys none = ok none
    result_json keys (some value) = and_then (decrypt_stored keys (some value)) load_json
