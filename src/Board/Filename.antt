-- ===== src/Board/Filename.antt =====
-- The extension of an uploaded file's name (`upload_resume` of app/routers/resumes.py), over the code
-- points of the name. `str.lower` is spelled out on ASCII: no other letter lowers to one of the
-- extensions that are compared.
use ats_smart_backend.Prelude.{
  codes, eq_codes, ℕ, ◌+◌, String, Bool, Option, none, some, List, [], ◌∷◌, map, any, leb, ◌==◌,
  ◌&&◌, if◌then◌else◌,
}

lower : ℕ → ℕ
lower c = if leb b'A' c && leb c b'Z' then c + 32 else c

-- What stands behind the last dot, if there is one.
after_last_dot : List ℕ → Option (List ℕ)
after_last_dot [] = none
after_last_dot (c ∷ cs) = elim (after_last_dot cs) [
  | some ext ↦ some ext
  | none ↦ if c == b'.' then some cs else none
]

unfoldable pub file_extension : List ℕ → List ℕ
unfolding lower after_last_dot
file_extension original_filename = elim (after_last_dot original_filename) [
  | none ↦ []
  | some ext ↦ b'.' ∷ map lower ext
]

unfoldable pub has_extension : List String → List ℕ → Bool
unfolding any
has_extension allowed extension = any (λ a. eq_codes (codes a) extension) allowed
