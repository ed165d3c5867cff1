-- ===== src/Crypto.antt =====
-- app/core/crypto.py: the stored rows of `ENCRYPTED_FIELDS`, what the ORM loads of them, and `_reencrypt`.
pub mod Columns
pub mod Batches
pub mod Rounds
pub mod Written
pub mod Rotation
use ats_smart_backend.Prelude.{
  ℕ, Bool, true, false, Option, none, some, List, ◌||◌, not, if◌then◌else◌,
}
use ats_smart_backend.Exec.{Result, ok, raised, and_then}
use ats_smart_backend.Search.{Text, blind_index_tokens}
use ats_smart_backend.Crypto.Columns.{
  Fernet, JsonText, CryptoError, is_encrypted, encrypt_text, decrypt_stored, bind_json, result_json,
}
use ats_smart_backend.Crypto.Batches.{reencrypt_table}

-- The columns as the database has them
pub record StoredCandidate : Type 0 where
  pub id : ℕ
  pub first_name : Option Text
  pub last_name : Option Text
  pub phone : Option Text
  pub location : Option Text

pub record StoredResume : Type 0 where
  pub id : ℕ
  pub raw_text : Option Text
  pub parsed_data : Option Text
  pub agent_analysis : Option Text
  pub search_tokens : Option (List ℕ)

pub record Tables : Type 0 where
  pub candidates : List StoredCandidate
  pub resumes : List StoredResume

-- The values that the application sees
pub record CandidateValues : Type 0 where
  pub first_name : Option Text
  pub last_name : Option Text
  pub phone : Option Text
  pub location : Option Text

pub record ResumeValues (Json : Type 0) : Type 0 where
  pub raw_text : Option Text
  pub parsed_data : Option Json
  pub agent_analysis : Option Json

-- `not_like` on a column: NULL is not a match
is_legacy : Option Text → Bool
is_legacy none = false
is_legacy (some value) = not (is_encrypted (some value))

unfoldable pub legacy_candidate : StoredCandidate → Bool
unfolding is_legacy
legacy_candidate row =
    is_legacy row.first_name
    || (is_legacy row.last_name || (is_legacy row.phone || is_legacy row.location))

unfoldable pub legacy_resume : StoredResume → Bool
unfolding is_legacy
legacy_resume row = is_legacy row.raw_text || is_legacy row.parsed_data

module _ {Keys : Type 0} (fernet : Fernet Keys) where
  unfoldable pub load_candidate : Keys → StoredCandidate → Result CryptoError CandidateValues
  unfolding and_then decrypt_stored
  load_candidate keys row = and_then (decrypt_stored fernet keys row.first_name) (λ first_name.
      and_then (decrypt_stored fernet keys row.last_name) (λ last_name.
        and_then (decrypt_stored fernet keys row.phone) (λ phone.
          and_then (decrypt_stored fernet keys row.location) (λ location. ok (record {
            first_name = first_name;
            last_name = last_name;
            phone = phone;
            location = location;
          })))))

  -- The random bytes of a call of `encrypt`, by the row and the column that it is for
  module _ (random : ℕ → ℕ → ℕ) where
    -- `flag_modified` of the four fields: their values are bound again.
    unfoldable pub store_candidate : Keys → StoredCandidate → CandidateValues → StoredCandidate
    unfolding encrypt_text
    store_candidate keys row values = record {
      id = row.id;
      first_name = encrypt_text fernet keys (random row.id 0) values.first_name;
      last_name = encrypt_text fernet keys (random row.id 1) values.last_name;
      phone = encrypt_text fernet keys (random row.id 2) values.phone;
      location = encrypt_text fernet keys (random row.id 3) values.location;
    }

    unfoldable pub rewrite_candidate : Keys → StoredCandidate → Result CryptoError StoredCandidate
    unfolding load_candidate store_candidate and_then
    rewrite_candidate keys row =
        and_then (load_candidate keys row) (λ values. ok (store_candidate keys row values))

module _ {Keys Json : Type 0} (fernet : Fernet Keys) (json : JsonText Json) where
  unfoldable pub load_resume : Keys → StoredResume → Result CryptoError (ResumeValues Json)
  unfolding and_then decrypt_stored result_json
  load_resume keys row = and_then (decrypt_stored fernet keys row.raw_text) (λ raw_text.
      and_then (result_json fernet json keys row.parsed_data) (λ parsed_data.
        and_then (result_json fernet json keys row.agent_analysis) (λ agent_analysis. ok (record {
          raw_text = raw_text;
          parsed_data = parsed_data;
          agent_analysis = agent_analysis;
        }))))

  module _ (random : ℕ → ℕ → ℕ) where
    module _ (hmac : Text → ℕ) (lower : Text → Text) (is_word : ℕ → Bool) where
      -- Only the two columns of `ENCRYPTED_FIELDS` are flagged, and the index is built again.
      unfoldable pub store_resume : Keys → StoredResume → ResumeValues Json → StoredResume
      unfolding encrypt_text bind_json
      store_resume keys row values = record {
        id = row.id;
        raw_text = encrypt_text fernet keys (random row.id 0) values.raw_text;
        parsed_data = bind_json fernet json keys (random row.id 1) values.parsed_data;
        agent_analysis = row.agent_analysis;
        search_tokens = blind_index_tokens hmac lower is_word values.raw_text;
      }

      unfoldable pub rewrite_resume : Keys → StoredResume → Result CryptoError StoredResume
      unfolding load_resume store_resume and_then
      rewrite_resume keys row =
          and_then (load_resume keys row) (λ values. ok (store_resume keys row values))

      -- The loop over the two models; `none` while one of its tables is still in work after `fuel` rounds
      unfoldable pub reencrypt :
          Keys → Bool → ℕ → ℕ → Tables → Option (Tables × Result CryptoError (ℕ × ℕ))
      unfolding reencrypt_table rewrite_candidate rewrite_resume legacy_candidate legacy_resume
      reencrypt keys only_legacy batch_size fuel db =
          elim (reencrypt_table legacy_candidate only_legacy (λ row. row.id) batch_size
            (rewrite_candidate fernet random keys) fuel none 0 db.candidates) [
              | none ↦ none
              | some (candidates, raised e) ↦
                  some (record { candidates = candidates; resumes = db.resumes }, raised e)
              | some (candidates, ok n) ↦
                  elim (reencrypt_table legacy_resume only_legacy (λ row. row.id) batch_size
                    (rewrite_resume keys) fuel none 0 db.resumes) [
                      | none ↦ none
                      | some (resumes, raised e) ↦
                          some (record { candidates = candidates; resumes = resumes }, raised e)
                      | some (resumes, ok m) ↦
                          some (record { candidates = candidates; resumes = resumes }, ok (n, m))
                    ]
            ]
