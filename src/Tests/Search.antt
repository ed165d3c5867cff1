-- ===== src/Tests/Search.antt =====
-- A query with both operators, on a text with the name of a technology.
use ats_smart_backend.Prelude.{
  codes, ℕ, ◌+◌, ◌*◌, ◌^◌, ◌≡◌, refl, Bool, true, false, Option, none, some, List, [], ◌∷◌, leb,
  ◌==◌, ◌&&◌, ◌||◌, map, if◌then◌else◌, arith,
}
use ats_smart_backend.Search.{
  Text, Term, both, either, resume_search_words, parse_search_query, resume_blind_index_condition,
  blind_index_tokens,
}
use ats_smart_backend.Search.Meaning.{
  on_rows, satisfied, resume_blind_index_condition-satisfied, HasNoCollisions,
}

abbrev is_space : ℕ → Bool
is_space c = c == b' '

abbrev lower_letter : ℕ → ℕ
lower_letter c = if leb b'A' c && leb c b'Z' then c + 32 else c

abbrev lower : Text → Text
lower text = map lower_letter text

abbrev is_word : ℕ → Bool
is_word c = leb b'a' (lower_letter c) && leb (lower_letter c) b'z'

-- A digest that tells the words by their first letters
abbrev hmac : Text → ℕ
hmac [] = 0
hmac (c ∷ text) = c * 2 ^ 128

parsed :
    parse_search_query is_space is_word lower (some (codes " Node.js and  C++ OR Orlando "))
    ≡ record { operator = both; words = codes "node" ∷ codes "js" ∷ [] }
      ∷ record { operator = both; words = codes "c" ∷ [] }
      ∷ record { operator = either; words = codes "orlando" ∷ [] }
      ∷ []
unfolding parse_search_query ats_smart_backend.Prelude.strip
parsed = refl

abbrev resume : Text
resume = codes "Node.js, C++ Kafka"

abbrev query : Option Text
query = some (codes "node AND c# OR rust")

abbrev NoCollisions : Type 0
NoCollisions =
    HasNoCollisions hmac lower is_word resume (parse_search_query is_space is_word lower query)

apart : NoCollisions
unfolding HasNoCollisions ats_smart_backend.Search.Meaning.HasNoCollision
    ats_smart_backend.Search.Meaning.words_of resume_search_words parse_search_query
    ats_smart_backend.Prelude.strip ats_smart_backend.Search.blind_index_token
apart = (
  (
    (
      λ e. refl,
      (λ e. absurd (omega arith), (λ e. absurd (omega arith), (λ e. absurd (omega arith), tt))),
    ),
    tt,
  ),
  (
    (
      (
        λ e. absurd (omega arith),
        (λ e. absurd (omega arith), (λ e. refl, (λ e. absurd (omega arith), tt))),
      ),
      tt,
    ),
    (
      (
        (
          λ e. absurd (omega arith),
          (λ e. absurd (omega arith), (λ e. absurd (omega arith), (λ e. absurd (omega arith), tt))),
        ),
        tt,
      ),
      tt,
    ),
  ),
)

resume_blind_index_condition-satisfied_example :
    on_rows
      (blind_index_tokens hmac lower is_word (some resume))
      (resume_blind_index_condition hmac lower is_word is_space query)
    ≡ satisfied
        (resume_search_words is_word lower (some resume))
        none
        (parse_search_query is_space is_word lower query)
resume_blind_index_condition-satisfied_example =
    resume_blind_index_condition-satisfied hmac lower is_word resume is_space query apart
