-- ===== src/Crypto/Rotation.antt =====
-- What `reencrypt` leaves readable when the key that was first before it is taken away.
use ats_smart_backend.Prelude.{
  starts_with, ℕ, ◌<◌, ◌≡◌, refl, sym, ◌∙◌, ap, subst, Bool, true, false, Option, none, some, List,
  map, length, All, All-filter, All-imp, filter-true,
}
use ats_smart_backend.Exec.{Result, ok, raised, and_then, and_then-ok}
use ats_smart_backend.Search.{Text}
use ats_smart_backend.Pagination.Order.{HasUniqueKeys}
use ats_smart_backend.Crypto.Batches.{id_key, is_wanted, reencrypt_table}
use ats_smart_backend.Crypto.Written.{reencrypt_table-map}
use ats_smart_backend.Crypto.Columns.{
  Fernet, JsonText, CryptoError, fernet_prefix, is_encrypted, encrypt_text, decrypt_text,
  decrypt_stored, bind_json, result_json, load_json,
}
use ats_smart_backend.Crypto.{
  StoredCandidate, StoredResume, Tables, CandidateValues, load_candidate, load_resume,
  store_candidate, store_resume, rewrite_candidate, rewrite_resume, reencrypt, legacy_candidate,
  legacy_resume,
}

or_unchanged : {A E : Type 0} → A → Result E A → A
or_unchanged row (raised e) = row
or_unchanged row (ok changed) = changed

-- The row that is written for a row that can be read
unfoldable pub renewed : {A E : Type 0} → (A → Result E A) → A → A
unfolding or_unchanged
renewed rewrite row = or_unchanged row (rewrite row)

renewed-ok :
    {A E : Type 0} (rewrite : A → Result E A) (row changed : A)
    → rewrite row ≡ ok changed
    → renewed rewrite row ≡ changed
unfolding renewed or_unchanged
renewed-ok rewrite row changed h = rw h refl

-- Every change keeps the id.
id_kept :
    {A E V : Type 0} (id_of : A → ℕ) (row : A) (store : V → A) (r : Result E V)
    → ((values : V) → id_of (store values) ≡ id_of row)
    → id_of (or_unchanged row (and_then r (λ values. ok (store values)))) ≡ id_of row
unfolding or_unchanged and_then
id_kept id_of row store (raised e) h = refl
id_kept id_of row store (ok values) h = h values

-- A row that the keys of before can read
abbrev pub IsReadable : {E V : Type 0} → Result E V → Type 0
IsReadable {E} {V} r = (values : V) × (r ≡ ok values)

module _ {Keys Json : Type 0} (fernet : Fernet Keys) (json : JsonText Json) (keys : Keys) where
  -- The new key reads the text and the parsed data of before; the analysis is the
  -- stored text of before.
  unfoldable pub IsKept : Keys → StoredResume → StoredResume → Type 0
  IsKept only_new row changed =
      (decrypt_stored fernet only_new changed.raw_text ≡ decrypt_stored fernet keys row.raw_text)
      × (result_json fernet json only_new changed.parsed_data
          ≡ result_json fernet json keys row.parsed_data)
      × (changed.agent_analysis ≡ row.agent_analysis)

  unfoldable pub ResumeIsReadable : StoredResume → Type 0
  ResumeIsReadable row =
      IsReadable (decrypt_stored fernet keys row.raw_text)
      × IsReadable (result_json fernet json keys row.parsed_data)
      × IsReadable (result_json fernet json keys row.agent_analysis)

  module _ (random : ℕ → ℕ → ℕ) (hmac : Text → ℕ) (lower : Text → Text) (is_word : ℕ → Bool) where
    unfoldable pub rewrite : StoredResume → Result CryptoError StoredResume
    rewrite = rewrite_resume fernet json random hmac lower is_word keys

    unfoldable pub renewed_tables : Tables → Tables
    renewed_tables db = record {
      candidates = map (renewed (rewrite_candidate fernet random keys)) db.candidates;
      resumes = map (renewed rewrite) db.resumes;
    }

module _ {Keys Json : Type 0} (fernet : Fernet Keys) (json : JsonText Json) (keys only_new : Keys)
    (opens : (random : ℕ) (text : Text)
      → fernet.decrypt only_new (fernet.encrypt keys random text) ≡ some text)
    (marks : (random : ℕ) (text : Text)
      → starts_with fernet_prefix (fernet.encrypt keys random text) ≡ true)
    (loads-dumps : (value : Json) → json.loads (json.dumps value) ≡ some value) where
  decrypt_stored-encrypt_text :
      (random : ℕ) (value : Option Text)
      → decrypt_stored fernet only_new (encrypt_text fernet keys random value) ≡ ok value
  unfolding decrypt_stored encrypt_text decrypt_text is_encrypted
  decrypt_stored-encrypt_text random none = refl
  decrypt_stored-encrypt_text random (some text) =
      rw (marks random text) (rw (opens random text) refl)

  result_json-bind_json :
      (random : ℕ) (value : Option Json)
      → result_json fernet json only_new (bind_json fernet json keys random value) ≡ ok value
  unfolding bind_json result_json encrypt_text load_json
  result_json-bind_json random none = refl
  result_json-bind_json random (some value) =
      and_then-ok (load_json fernet json)
        (decrypt_stored-encrypt_text random (some (json.dumps value)))
      ∙ rw (loads-dumps value, load_json) refl

  module _ (random : ℕ → ℕ → ℕ) where
    load_candidate-store_candidate :
        (row : StoredCandidate) (values : CandidateValues)
        → load_candidate fernet only_new (store_candidate fernet random keys row values) ≡ ok values
    unfolding load_candidate store_candidate and_then
    load_candidate-store_candidate row values =
        and_then-ok _ (decrypt_stored-encrypt_text (random row.id 0) values.first_name)
        ∙ and_then-ok _ (decrypt_stored-encrypt_text (random row.id 1) values.last_name)
        ∙ and_then-ok _ (decrypt_stored-encrypt_text (random row.id 2) values.phone)
        ∙ and_then-ok _ (decrypt_stored-encrypt_text (random row.id 3) values.location)

    -- A candidate who could be read before is read the same with the new key alone.
    load_candidate-renewed :
        (row : StoredCandidate)
        → IsReadable (load_candidate fernet keys row)
        → load_candidate fernet only_new (renewed (rewrite_candidate fernet random keys) row)
          ≡ load_candidate fernet keys row
    unfolding rewrite_candidate
    load_candidate-renewed row (values, h) =
        ap (load_candidate fernet only_new) (renewed-ok _ row _ (and_then-ok _ h))
        ∙ load_candidate-store_candidate row values
        ∙ sym h

    candidate_id :
        (row : StoredCandidate) → (renewed (rewrite_candidate fernet random keys) row).id ≡ row.id
    unfolding rewrite_candidate renewed store_candidate
    candidate_id row =
        id_kept (λ r. r.id) row (store_candidate fernet random keys row)
          (load_candidate fernet keys row) (λ values. refl)

    module _ (hmac : Text → ℕ) (lower : Text → Text) (is_word : ℕ → Bool) where
      resume_id :
          (row : StoredResume)
          → (renewed (rewrite fernet json keys random hmac lower is_word) row).id ≡ row.id
      unfolding rewrite rewrite_resume renewed store_resume
      resume_id row =
          id_kept (λ r. r.id) row (store_resume fernet json random hmac lower is_word keys row)
            (load_resume fernet json keys row) (λ values. refl)

      rewrite-ok :
          (row : StoredResume) (raw_text : Option Text) (parsed_data agent_analysis : Option Json)
          → decrypt_stored fernet keys row.raw_text ≡ ok raw_text
          → result_json fernet json keys row.parsed_data ≡ ok parsed_data
          → result_json fernet json keys row.agent_analysis ≡ ok agent_analysis
          → (rewrite fernet json keys random hmac lower is_word) row
            ≡ ok (
                store_resume fernet json random hmac lower is_word keys row (record {
                  raw_text = raw_text;
                  parsed_data = parsed_data;
                  agent_analysis = agent_analysis;
                }))
      unfolding rewrite rewrite_resume load_resume
      rewrite-ok row raw_text parsed_data agent_analysis h k l =
          and_then-ok _ (and_then-ok _ h ∙ and_then-ok _ k ∙ and_then-ok _ l)

      renewed-IsKept :
          (row : StoredResume)
          → ResumeIsReadable fernet json keys row
          → IsKept fernet json keys only_new row
              (renewed (rewrite fernet json keys random hmac lower is_word) row)
      unfolding IsKept ResumeIsReadable store_resume
      renewed-IsKept row ((raw_text, h), (parsed_data, k), (agent_analysis, l)) =
          subst (IsKept fernet json keys only_new row)
            (sym (
              renewed-ok (rewrite fernet json keys random hmac lower is_word) row _
                (rewrite-ok row raw_text parsed_data agent_analysis h k l)))
            (
              decrypt_stored-encrypt_text (random row.id 0) raw_text ∙ sym h,
              result_json-bind_json (random row.id 1) parsed_data ∙ sym k,
              refl,
            )

      rewrite_candidate-renewed :
          (row : StoredCandidate)
          → IsReadable (load_candidate fernet keys row)
          → rewrite_candidate fernet random keys row
            ≡ ok (renewed (rewrite_candidate fernet random keys) row)
      unfolding rewrite_candidate
      rewrite_candidate-renewed row (values, h) =
          and_then-ok _ h ∙ ap ok (sym (renewed-ok _ row _ (and_then-ok _ h)))

      rewrite-renewed :
          (row : StoredResume)
          → ResumeIsReadable fernet json keys row
          → (rewrite fernet json keys random hmac lower is_word) row
            ≡ ok (renewed (rewrite fernet json keys random hmac lower is_word) row)
      unfolding ResumeIsReadable
      rewrite-renewed row ((raw_text, h), (parsed_data, k), (agent_analysis, l)) =
          rewrite-ok row raw_text parsed_data agent_analysis h k l
          ∙ ap ok (
              sym (
                renewed-ok (rewrite fernet json keys random hmac lower is_word) row _
                  (rewrite-ok row raw_text parsed_data agent_analysis h k l)))

      -- The loop of one table, when every row is wanted
      whole_table :
          {A : Type 0} (id_of : A → ℕ) (legacy : A → Bool) (change : A → Result CryptoError A)
          (rows : List A) (batch_size fuel : ℕ)
          → ((row : A) → id_of (renewed change row) ≡ id_of row)
          → HasUniqueKeys (id_key id_of) false rows
          → 0 < batch_size
          → length rows < fuel
          → All (λ row. change row ≡ ok (renewed change row)) rows
          → reencrypt_table legacy false id_of batch_size change fuel none 0 rows
            ≡ some (map (renewed change) rows, ok (length rows))
      unfolding is_wanted
      whole_table id_of legacy change rows batch_size fuel keeps unique positive enough readable =
          reencrypt_table-map id_of (renewed change) keeps legacy false change rows unique
            batch_size fuel positive enough (All-filter _ (is_wanted legacy false) rows readable)
          ∙ ap (λ n. some (map (renewed change) rows, ok n)) (ap length (filter-true rows))

      -- `reencrypt` ends and keeps everything it names readable: for tables of unique ids that the keys can
      -- read, batches of one row at least and more rounds than rows, it writes every row of both tables, and
      -- then the new key alone reads the four fields of every candidate, and the text and the parsed data of
      -- every resume, as the keys did before; the column `agent_analysis` is left as it is stored. The new
      -- key must open what the keys encrypt, tokens must have Fernet's prefix, and JSON must read back.
      pub reencrypt-readable :
          (batch_size fuel : ℕ) (db : Tables)
          → HasUniqueKeys (id_key (λ row. row.id)) false db.candidates
          → HasUniqueKeys (id_key (λ row. row.id)) false db.resumes
          → 0 < batch_size
          → length db.candidates < fuel
          → length db.resumes < fuel
          → All (λ row. IsReadable (load_candidate fernet keys row)) db.candidates
          → All (ResumeIsReadable fernet json keys) db.resumes
          → (reencrypt fernet json random hmac lower is_word keys false batch_size fuel db
              ≡ some (
                renewed_tables fernet json keys random hmac lower is_word db,
                ok (length db.candidates, length db.resumes),
              ))
            × All
                (λ row.
                  load_candidate fernet only_new
                    (renewed (rewrite_candidate fernet random keys) row)
                  ≡ load_candidate fernet keys row)
                db.candidates
            × All
                (λ row.
                  IsKept fernet json keys only_new row
                    (renewed (rewrite fernet json keys random hmac lower is_word) row))
                db.resumes
      unfolding reencrypt renewed_tables rewrite
      reencrypt-readable batch_size fuel db unique_candidates unique_resumes positive enough_c
            enough_r readable_c readable_r =
          (
            rw
                (
                  whole_table (λ row. row.id) legacy_candidate
                      (rewrite_candidate fernet random keys) db.candidates batch_size fuel
                      candidate_id unique_candidates positive enough_c
                      (All-imp _ _ db.candidates rewrite_candidate-renewed readable_c),
                  reencrypt,
                )
                (rw
                  (whole_table (λ row. row.id) legacy_resume
                    (rewrite fernet json keys random hmac lower is_word) db.resumes batch_size fuel
                    resume_id unique_resumes positive enough_r
                    (All-imp _ _ db.resumes rewrite-renewed readable_r))
                  refl),
            All-imp _ _ db.candidates load_candidate-renewed readable_c,
            All-imp _ _ db.resumes renewed-IsKept readable_r,
          )
