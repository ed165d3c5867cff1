-- ===== src/Tests/Privacy.antt =====
-- Sara's account, and who else might have held it.
use ats_smart_backend.Prelude.{codes, ℕ, ◌≡◌, refl, true, none, some, [], ◌∷◌}
use ats_smart_backend.Search.{Text}
use ats_smart_backend.Tests.Sessions.{store}
use ats_smart_backend.Privacy.{Draw, Rows, Platform, anonymize_candidate_account}
use ats_smart_backend.Privacy.Erasure.{Identity, held_by, anonymize_candidate_account-held_by}

abbrev draw : Draw
draw = record { suffix = codes "a1b2c3"; email_token = codes "77"; password_hash = codes "h" }

abbrev sara_rows : Rows
sara_rows = record {
  users =
      record {
        id = 5;
        role = codes "Candidate";
        email = codes "sara@x.ir";
        password_hash = codes "s";
        is_active = true;
        anonymized_at = none;
      }
      ∷ [];
  candidates =
      record {
        id = 8;
        user_id = 5;
        first_name = codes "Sara";
        last_name = codes "Amini";
        phone = some (codes "0912");
        location = none;
        skills = none;
      }
      ∷ [];
  resumes =
      record {
        id = 3;
        candidate_id = 8;
        file_url = codes "/media/3.pdf";
        raw_text = some (codes "Python at Digikala");
        search_tokens = some (11 ∷ []);
        parsed_data = none;
        skill_analysis = some (record {
          skills = codes "Python" ∷ [];
          total_experience_years = some 4;
          experience_entries = codes "Digikala" ∷ [];
        });
        agent_analysis = none;
      }
      ∷ [];
}

abbrev platform : Platform
platform = record {
  rows = sara_rows;
  sessions = store;
  cached_users = λ id. some (codes "sara@x.ir");
  files = codes "/media/3.pdf" ∷ codes "/media/4.pdf" ∷ [];
}

abbrev reza : Identity
reza = record {
  email = codes "reza@x.ir";
  password_hash = codes "r";
  first_name = codes "Reza";
  last_name = codes "Karimi";
  phone = none;
  location = some (codes "Tehran");
  tags = none;
  file_url = λ id. codes "/media/9.pdf";
  raw_text = λ id. none;
  search_tokens = λ id. none;
  parsed_data = λ id. some (codes "{}");
  experience_entries = λ id. [];
}

abbrev id_text : ℕ → Text
id_text id = id ∷ []

-- The file of the account is gone, and the other one is kept.
files_left :
    (anonymize_candidate_account id_text true draw 900 5 platform).files ≡ codes "/media/4.pdf" ∷ []
unfolding anonymize_candidate_account
files_left = refl

anonymize_candidate_account-held_by_example :
    ((anonymize_candidate_account id_text true draw 900 5
        (record platform { rows = held_by reza 5 sara_rows })).rows
      ≡ (anonymize_candidate_account id_text true draw 900 5 platform).rows)
    × ((anonymize_candidate_account id_text true draw 900 5 platform).cached_users 5 ≡ none)
    × ((anonymize_candidate_account id_text true draw 900 5 platform).sessions.known_devices 5
        ≡ none)
    × ((anonymize_candidate_account id_text true draw 900 5 platform).sessions.login_history 5
        ≡ none)
anonymize_candidate_account-held_by_example =
    anonymize_candidate_account-held_by id_text draw 900 5 reza true platform
