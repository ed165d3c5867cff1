-- ===== src/Tests/Crypto.antt =====
-- Two keys, tables with a legacy value, and their rotation.
use ats_smart_backend.Prelude.{
  codes, drop, filter, map, ◌+◌, ◌*◌, not, ℕ, ◌≡◌, ◌≢◌, refl, ap, Bool, true, false, Option, none,
  some, List, [], ◌∷◌, ◌++◌, ◌==◌, if◌then◌else◌, All, length, arith,
}
use ats_smart_backend.Exec.{Result, ok}
use ats_smart_backend.Search.{Text}
use ats_smart_backend.Pagination.Order.{HasUniqueKeys}
use ats_smart_backend.Crypto.Batches.{id_key, is_wanted, reencrypt_table}
use ats_smart_backend.Crypto.Written.{reencrypt_table-map}
use ats_smart_backend.Crypto.Columns.{result_json, Fernet, JsonText, CryptoError, fernet_prefix}
use ats_smart_backend.Crypto.{Tables, reencrypt, load_candidate, rewrite_candidate}
use ats_smart_backend.Crypto.Rotation.{
  reencrypt-readable, renewed, renewed_tables, IsKept, rewrite, ResumeIsReadable, IsReadable,
}

-- A token is the prefix, the first key, the random number and the text.
abbrev first_key : List ℕ → ℕ
first_key [] = 0
first_key (k ∷ keys) = k

abbrev member : ℕ → List ℕ → Bool
member k [] = false
member k (x ∷ xs) = if k == x then true else member k xs

abbrev opened : List ℕ → Text → Option Text
opened keys (k ∷ random ∷ text) = if member k keys then some text else none
opened keys _ = none

abbrev fernet : Fernet (List ℕ)
fernet = record {
  encrypt = λ keys random text. fernet_prefix ++ (first_key keys ∷ random ∷ text);
  decrypt = λ keys text. opened keys (drop 6 text);
}

abbrev json : JsonText Text
json = record { dumps = λ value. value; loads = λ text. some text }

abbrev keys : List ℕ
keys = 2 ∷ 1 ∷ []

abbrev token : ℕ → Text → Option Text
token key text = some (fernet.encrypt (key ∷ []) 7 text)

abbrev db : Tables
db = record {
  candidates =
      record {
        id = 3;
        first_name = token 1 (codes "Sara");
        last_name = token 1 (codes "Amini");
        phone = none;
        location = some (codes "Tehran");
      }
      ∷ record {
        id = 1;
        first_name = token 2 (codes "Reza");
        last_name = token 1 (codes "Karimi");
        phone = token 1 (codes "0912");
        location = none;
      }
      ∷ [];
  resumes =
      record {
        id = 5;
        raw_text = token 1 (codes "Python");
        parsed_data = token 1 (codes "{}");
        agent_analysis = token 1 (codes "[]");
        search_tokens = none;
      }
      ∷ [];
}

three_not_one : ◌≢◌ {A = ℕ} 3 1
three_not_one = omega arith

abbrev random : ℕ → ℕ → ℕ
random row column = 10 * row + column

abbrev hmac : Text → ℕ
hmac word = length word

abbrev lower : Text → Text
lower word = word

abbrev is_word : ℕ → Bool
is_word c = not (c == b' ')

unique_candidates : HasUniqueKeys (id_key (λ row. row.id)) false db.candidates
unique_candidates = ((λ e. three_not_one (ap (λ k. k.1) e), tt), (tt, tt))

candidates-IsReadable : All (λ row. IsReadable (load_candidate fernet keys row)) db.candidates
unfolding load_candidate
candidates-IsReadable = ((_, refl), ((_, refl), tt))

resumes-ResumeIsReadable : All (ResumeIsReadable fernet json keys) db.resumes
unfolding ResumeIsReadable result_json
resumes-ResumeIsReadable = (((_, refl), (_, refl), (_, refl)), tt)

reencrypt-readable_example :
    (reencrypt fernet json random hmac lower is_word keys false 1 3 db
      ≡ some (renewed_tables fernet json keys random hmac lower is_word db, ok (2, 1)))
    × All
        (λ row.
          load_candidate fernet (2 ∷ []) (renewed (rewrite_candidate fernet random keys) row)
          ≡ load_candidate fernet keys row)
        db.candidates
    × All
        (λ row.
          IsKept fernet json keys
            (2 ∷ [])
            row
            (renewed (rewrite fernet json keys random hmac lower is_word) row))
        db.resumes
reencrypt-readable_example =
    reencrypt-readable fernet json keys (2 ∷ []) (λ random text. refl) (λ random text. refl)
      (λ value. refl) random hmac lower is_word 1 3 db unique_candidates (tt, tt) (omega arith)
      (omega arith) (omega arith) candidates-IsReadable resumes-ResumeIsReadable

-- A table of bare ids: those up to 4 are wanted, and are written as they are.
abbrev ids : List ℕ
ids = 3 ∷ 1 ∷ 8 ∷ []

abbrev small : ℕ → Bool
small n = if n == 8 then false else true

unique_ids : HasUniqueKeys (id_key (λ n. n)) false ids
unique_ids = (
  (λ e. three_not_one (ap (λ k. k.1) e), (λ e. three_not_eight (ap (λ k. k.1) e), tt)),
  ((λ e. one_not_eight (ap (λ k. k.1) e), tt), (tt, tt)),
)
  where
    three_not_eight : ◌≢◌ {A = ℕ} 3 8
    three_not_eight = omega arith

    one_not_eight : ◌≢◌ {A = ℕ} 1 8
    one_not_eight = omega arith

abbrev unchanged : ℕ → Result CryptoError ℕ
unchanged n = ok n

readable_ids : All (λ n. unchanged n ≡ ok n) (filter (is_wanted small true) ids)
unfolding filter is_wanted
readable_ids = (refl, (refl, tt))

reencrypt_table-map_example :
    reencrypt_table small true (λ n. n) 1 unchanged 4 none 0 ids
    ≡ some (
      map (λ n. if is_wanted small true n then n else n) ids,
      ok (length (filter (is_wanted small true) ids)),
    )
reencrypt_table-map_example =
    reencrypt_table-map (λ n. n) (λ n. n) (λ n. refl) small true unchanged ids unique_ids 1 4
      (omega arith) (omega arith) readable_ids
