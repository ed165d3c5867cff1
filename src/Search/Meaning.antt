-- ===== src/Search/Meaning.antt =====
-- What a search finds: the condition on the hashes means the query on the words.
use ats_smart_backend.Prelude.{
  eq_codes, eq_codes_refl, eq_codes_eq, ℕ, ◌≡◌, refl, sym, ◌∙◌, ap, Bool, true, false, Option, none,
  some, List, [], ◌∷◌, map, any, ◌==◌, ◌&&◌, ◌||◌, arith, All, Bool-cases, inl, inr, ==_iff,
}
use mathlib.Core.Bool.{false≢true}
use ats_smart_backend.Search.{
  Text, Term, Operator, both, either, Condition, insert_once, sorted_set, contains_all, holds,
  blind_index_token, blind_index_tokens, connect, add_term, combine, resume_blind_index_condition,
  resume_search_words, parse_search_query,
}

-- Is a word one of the words?
unfoldable pub has_word : List Text → Text → Bool
unfolding any
has_word words word = any (λ w. eq_codes w word) words

unfoldable pub has_words : List Text → List Text → Bool
unfolding has_word
has_words words [] = true
has_words words (word ∷ rest) = has_word words word && has_words words rest

unfoldable pub weigh : Operator → Bool → Bool → Bool
weigh either a b = a || b
weigh both a b = a && b

-- The terms from left to right: a term asks for all of its words.
unfoldable pub satisfied : List Text → Option Bool → List Term → Option Bool
unfolding has_words weigh
satisfied words so_far [] = so_far
satisfied words so_far (term ∷ terms) =
    let here = has_words words term.words in
    satisfied words (some (elim so_far [ none ↦ here | some b ↦ weigh term.operator b here ])) terms

-- A row whose column is NULL is not selected.
unfoldable pub selects : Option (List ℕ) → Condition → Bool
unfolding holds
selects none condition = false
selects (some column) condition = holds column condition

abbrev pub on_rows : Option (List ℕ) → Option Condition → Option Bool
on_rows column none = none
on_rows column (some condition) = some (selects column condition)

any-insert_once :
    (p : ℕ → Bool) (x : ℕ) (xs : List ℕ) → any p (insert_once x xs) ≡ (p x || any p xs)
unfolding any insert_once
any-insert_once p x [] = refl
any-insert_once p x (y ∷ ys) = grind (arith, any-insert_once p x ys)

any-sorted_set : (p : ℕ → Bool) (xs : List ℕ) → any p (sorted_set xs) ≡ any p xs
unfolding any sorted_set
any-sorted_set p [] = refl
any-sorted_set p (x ∷ xs) = ground (arith, any-insert_once p x (sorted_set xs), any-sorted_set p xs)

contains_all-insert_once :
    (column : List ℕ) (x : ℕ) (xs : List ℕ)
    → contains_all column (insert_once x xs) ≡ contains_all column (x ∷ xs)
unfolding contains_all insert_once
contains_all-insert_once column x [] = refl
contains_all-insert_once column x (y ∷ ys) = ground (arith, contains_all-insert_once column x ys)

contains_all-sorted_set :
    (column xs : List ℕ) → contains_all column (sorted_set xs) ≡ contains_all column xs
unfolding contains_all sorted_set
contains_all-sorted_set column [] = refl
contains_all-sorted_set column (x ∷ xs) =
    contains_all-insert_once column x (sorted_set xs)
    ∙ ap (λ b. any (λ y. y == x) column && b) (contains_all-sorted_set column xs)

module _ (hmac : Text → ℕ) (lower : Text → Text) where
  -- No word of a text collides with the word looked for.
  unfoldable pub HasNoCollision : List Text → Text → Type 0
  HasNoCollision words word =
      All (λ v. blind_index_token hmac lower v ≡ blind_index_token hmac lower word → v ≡ word) words

  same_token :
      (v word : Text)
      → (blind_index_token hmac lower v ≡ blind_index_token hmac lower word → v ≡ word)
      → (blind_index_token hmac lower v == blind_index_token hmac lower word) ≡ eq_codes v word
  same_token v word h = elim (Bool-cases (eq_codes v word)) [
    | inl same ↦
        ap (λ t. blind_index_token hmac lower t == blind_index_token hmac lower word)
          (eq_codes_eq v word same)
        ∙ (==_iff _ _).1 refl
        ∙ sym same
    | inr other ↦
        elim (Bool-cases (blind_index_token hmac lower v == blind_index_token hmac lower word)) [
          | inl equal ↦ absurd (
              false≢true (
                sym other
                ∙ ap (λ t. eq_codes t word) (h ((==_iff _ _).0 equal))
                ∙ eq_codes_refl word))
          | inr distinct ↦ distinct ∙ sym other
        ]
  ]

  any-token :
      (words : List Text) (word : Text)
      → HasNoCollision words word
      → any (λ y. y == blind_index_token hmac lower word) (map (blind_index_token hmac lower) words)
        ≡ has_word words word
  unfolding any has_word HasNoCollision
  any-token [] word h = refl
  any-token (v ∷ words) word h =
      rw (any-token words word h.1)
        (ap (λ b. b || any (λ w. eq_codes w word) words) (same_token v word h.0))

  contains_all-words :
      (words terms : List Text)
      → All (HasNoCollision words) terms
      → contains_all
          (sorted_set (map (blind_index_token hmac lower) words))
          (sorted_set (map (blind_index_token hmac lower) terms))
        ≡ has_words words terms
  unfolding has_words contains_all
  contains_all-words words terms h = contains_all-sorted_set _ _ ∙ plain terms h
    where
      plain :
          (terms : List Text)
          → All (HasNoCollision words) terms
          → contains_all
              (sorted_set (map (blind_index_token hmac lower) words))
              (map (blind_index_token hmac lower) terms)
            ≡ has_words words terms
      plain [] h = refl
      plain (word ∷ terms) h =
          rw
            (
              any-sorted_set _ (map (blind_index_token hmac lower) words),
              any-token words word h.0,
              plain terms h.1,
            )
            refl

selects-connect :
    (column : List ℕ) (operator : Operator) (c d : Condition)
    → holds column (connect operator c d) ≡ weigh operator (holds column c) (holds column d)
unfolding holds connect weigh
selects-connect column either c d = refl
selects-connect column both c d = refl

module _ (hmac : Text → ℕ) (lower : Text → Text) (is_word : ℕ → Bool) (text : Text) where
  unfoldable pub words_of : List Text
  words_of = resume_search_words is_word lower (some text)

  unfoldable pub HasNoCollisions : List Term → Type 0
  HasNoCollisions terms = All (λ term. All (HasNoCollision hmac lower words_of) term.words) terms

  column_of : Option (List ℕ)
  column_of = blind_index_tokens hmac lower is_word (some text)

  combine-satisfied :
      (so_far : Option Condition) (terms : List Term)
      → HasNoCollisions terms
      → on_rows column_of (combine hmac lower so_far terms)
        ≡ satisfied words_of (on_rows column_of so_far) terms
  unfolding selects satisfied combine add_term blind_index_tokens column_of HasNoCollisions words_of
      holds resume_search_words
  combine-satisfied so_far [] h = refl
  combine-satisfied none (term ∷ terms) h =
      combine-satisfied (some (add_term hmac lower none term)) terms h.1
      ∙ ap (λ b. satisfied words_of (some b) terms)
          (contains_all-words hmac lower words_of term.words h.0)
  combine-satisfied (some c) (term ∷ terms) h =
      combine-satisfied (some (add_term hmac lower (some c) term)) terms h.1
      ∙ ap (λ b. satisfied words_of (some b) terms)
          (selects-connect _ term.operator c _
            ∙ ap (weigh term.operator _) (contains_all-words hmac lower words_of term.words h.0))

  -- A search finds what the query says: when no word of the resume has the hash of another word of the
  -- query, the condition on the hashes that the resume was stored with holds exactly if the terms hold on
  -- its words, from left to right; and a query without words is no condition.
  pub resume_blind_index_condition-satisfied :
      (is_space : ℕ → Bool) (raw_query : Option Text)
      → HasNoCollisions (parse_search_query is_space is_word lower raw_query)
      → on_rows
          (blind_index_tokens hmac lower is_word (some text))
          (resume_blind_index_condition hmac lower is_word is_space raw_query)
        ≡ satisfied
            (resume_search_words is_word lower (some text))
            none
            (parse_search_query is_space is_word lower raw_query)
  unfolding resume_blind_index_condition words_of column_of
  resume_blind_index_condition-satisfied is_space raw_query h =
      combine-satisfied none (parse_search_query is_space is_word lower raw_query) h
