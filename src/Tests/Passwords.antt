-- ===== src/Tests/Passwords.antt =====
-- The code of a forgotten password, used twice.
use ats_smart_backend.Prelude.{All, codes, ◌≤◌, ◌≡◌, refl, true, none, some, List, [], ◌∷◌}
use ats_smart_backend.Search.{Text}
use ats_smart_backend.Auth.Passwords.{
  Deletes, Redis, Recovery, ResetPasswordRequest, Request, forgot, reset, all_changes,
  all_codes_sent, all_changes-all_codes_sent,
}

abbrev alive : Redis
alive = record { writes = true; reads = true; deletes = true }

abbrev sara : Text
sara = codes "sara@x.ir"

abbrev with_code : Text → ResetPasswordRequest
with_code otp_code = record { email = sara; otp_code = otp_code; new_password = codes "n3w" }

abbrev before_reset : Recovery
before_reset = record { password_hash = λ email. some (codes "old"); otp = λ email. none }

abbrev hash_password : Text → Text
hash_password password = password

abbrev requests : List Request
requests =
    forgot alive 100 (codes "042917") sara
    ∷ reset alive 200 (with_code (codes "111111"))
    ∷ reset alive 300 (with_code (codes "042917"))
    ∷ reset alive 301 (with_code (codes "042917"))
    ∷ []

changed_once : all_changes hash_password sara requests before_reset ≡ 1
unfolding all_changes
changed_once = refl

requests-Deletes : All Deletes requests
unfolding Deletes
requests-Deletes = (tt, (refl, (refl, (refl, tt))))

all_changes-all_codes_sent_example :
    all_changes hash_password sara requests before_reset ≤ all_codes_sent sara requests
all_changes-all_codes_sent_example =
    all_changes-all_codes_sent hash_password sara requests before_reset refl requests-Deletes
