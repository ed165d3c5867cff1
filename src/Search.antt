-- ===== src/Search.antt =====
-- app/core/search_query.py and the blind index of app/core/crypto.py: the words of a text are kept as keyed
-- hashes, and a query is a condition on the hashes. HMAC is a parameter: the 256 bits of a digest as a
-- number, of which the first 32 hexadecimal digits are the quotient by 2 ^ 128.
pub mod Words
pub mod Meaning
pub use Words.{Term, Operator, both, either}
unfoldable pub use Words.{Text, resume_search_words, parse_search_query}
use ats_smart_backend.Prelude.{
  eq_codes, ℕ, ◌/◌, ◌^◌, Bool, true, false, Option, none, some, List, [], ◌∷◌, map, any, ltb, leb,
  ◌==◌, ◌&&◌, ◌||◌, if◌then◌else◌,
}

-- `sorted(set(...))`
unfoldable pub insert_once : ℕ → List ℕ → List ℕ
insert_once x [] = x ∷ []
insert_once x (y ∷ ys) =
    let rest = insert_once x ys in
    if x == y then y ∷ ys else if ltb x y then x ∷ y ∷ ys else y ∷ rest

unfoldable pub sorted_set : List ℕ → List ℕ
unfolding insert_once
sorted_set [] = []
sorted_set (x ∷ xs) = insert_once x (sorted_set xs)

-- A condition of SQL on the column of the tokens
pub data Condition : Type 0 where
  contains : List ℕ → Condition
  and : Condition → Condition → Condition
  or : Condition → Condition → Condition

-- What PostgreSQL answers for a row: `@>` asks for each token of the array.
unfoldable pub contains_all : List ℕ → List ℕ → Bool
unfolding any
contains_all column [] = true
contains_all column (x ∷ xs) = any (λ y. y == x) column && contains_all column xs

unfoldable pub holds : List ℕ → Condition → Bool
unfolding contains_all
holds column (contains tokens) = contains_all column tokens
holds column (and c d) = holds column c && holds column d
holds column (or c d) = holds column c || holds column d

-- `or_` or `and_`
unfoldable pub connect : Operator → Condition → Condition → Condition
connect either c d = or c d
connect both c d = and c d

module _ (hmac : Text → ℕ) (lower : Text → Text) where
  unfoldable pub blind_index_token : Text → ℕ
  blind_index_token word = hmac (lower word) / 2 ^ 128

  unfoldable pub add_term : Option Condition → Term → Condition
  unfolding sorted_set blind_index_token connect
  add_term combined term =
      let condition = contains (sorted_set (map blind_index_token term.words)) in
      elim combined [ none ↦ condition | some c ↦ connect term.operator c condition ]

  unfoldable pub combine : Option Condition → List Term → Option Condition
  unfolding add_term
  combine combined [] = combined
  combine combined (term ∷ terms) = combine (some (add_term combined term)) terms

  module _ (is_word : ℕ → Bool) where
    unfoldable pub blind_index_tokens : Option Text → Option (List ℕ)
    unfolding blind_index_token resume_search_words sorted_set
    blind_index_tokens none = none
    blind_index_tokens (some text) =
        some (sorted_set (map blind_index_token (resume_search_words is_word lower (some text))))

    unfoldable pub resume_blind_index_condition : (ℕ → Bool) → Option Text → Option Condition
    unfolding combine parse_search_query
    resume_blind_index_condition is_space raw_query =
        combine none (parse_search_query is_space is_word lower raw_query)
