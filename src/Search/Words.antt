-- ===== src/Search/Words.antt =====
-- app/core/search_query.py: the words of a text and the terms of a query, on code points. The classes
-- `\w` and `\s` of Unicode and `str.lower` are parameters; a pattern ignores the case of its letters
-- A, N, D, O and R, which are ASCII.
use ats_smart_backend.Prelude.{
  codes, strip, eq_codes, ℕ, zero, suc, ◌+◌, ◌-◌, Bool, true, false, Option, none, some, List, [],
  ◌∷◌, ◌++◌, map, any, leb, length, ◌==◌, ◌&&◌, if◌then◌else◌,
}

abbrev pub Text : Type 0
Text = List ℕ

-- `_SPLIT_CHARS`
abbrev split_chars : Text
split_chars = codes "./+#@_-"

unfoldable pub translate : Text → Text
unfolding any
translate text = map (λ c. if any (λ d. c == d) split_chars then b' ' else c) text

-- A run of word characters that has ended, if it is not empty, is a word.
unfoldable pub close_word : Text → List Text → List Text
close_word [] words = words
close_word (c ∷ run) words = (c ∷ run) ∷ words

unfoldable pub upper : ℕ → ℕ
upper c = if leb b'a' c && leb c b'z' then c - 32 else c

-- "&" or "|"
pub data Operator : Type 0 where
  both : Operator
  either : Operator

pub record Term : Type 0 where
  pub operator : Operator
  pub words : List Text

module _ (is_word : ℕ → Bool) where
  -- `_WORD_PATTERN.findall`, after the characters `run` of a word that is still open
  unfoldable pub find_words : Text → Text → List Text
  unfolding close_word
  find_words run [] = close_word run []
  find_words run (c ∷ text) =
      let longer = find_words (run ++ c ∷ []) text in
      let closed = find_words [] text in if is_word c then longer else close_word run closed

  module _ (lower : Text → Text) where
    unfoldable pub resume_search_words : Option Text → List Text
    unfolding find_words translate
    resume_search_words none = []
    resume_search_words (some text) = map lower (find_words [] (translate text))

module _ (is_space : ℕ → Bool) where
  -- How many characters of white space a text starts with
  spaces : Text → ℕ
  spaces [] = 0
  spaces (c ∷ text) = let rest = spaces text in if is_space c then suc rest else 0

  -- The operator at the head of a text, as it is written, and how many characters it has with the
  -- white space behind it, of which there must be some
  closed_by : Text → ℕ → Option (Text × ℕ)
  closed_by group zero = none
  closed_by group (suc n) = some (group, length group + suc n)

  word_operator : Text → Option (Text × ℕ)
  unfolding spaces closed_by upper
  word_operator (a ∷ b ∷ c ∷ text) =
      if eq_codes (map upper (a ∷ b ∷ c ∷ [])) (codes "AND")
      then closed_by (a ∷ b ∷ c ∷ []) (spaces text)
      else if eq_codes (map upper (a ∷ b ∷ [])) (codes "OR")
      then closed_by (a ∷ b ∷ []) (spaces (c ∷ text))
      else none
  word_operator _ = none

  -- A match of `_OPERATOR_SPLIT_PATTERN` at the head of a text: white space, greedily, then the operator.
  -- The group, and the length of the match.
  unfoldable pub operator_match : Text → Option (Text × ℕ)
  unfolding word_operator
  operator_match [] = none
  operator_match (c ∷ text) =
      let later = operator_match text in
      if is_space c
      then (elim (word_operator text) [
        | some (group, n) ↦ some (group, suc n)
        | none ↦ elim later [ none ↦ none | some (group, n) ↦ some (group, suc n) ]
      ])
      else none

  -- `_OPERATOR_SPLIT_PATTERN.split`: segment, operator, segment, and so on. `skipped` characters of a
  -- match are still to be passed over, and `segment` is what was read since the last one.
  unfoldable pub split_query : ℕ → Text → Text → List Text
  unfolding operator_match
  split_query skipped segment [] = segment ∷ []
  split_query (suc skipped) segment (c ∷ text) = split_query skipped segment text
  split_query zero segment (c ∷ text) =
      let on = split_query zero (segment ++ c ∷ []) text in
      elim (operator_match (c ∷ text)) [
        | none ↦ on
        | some (group, n) ↦ segment ∷ group ∷ split_query (n - 1) [] text
      ]

  module _ (is_word : ℕ → Bool) (lower : Text → Text) where
    -- The loop over the segments: `is_operator` is the parity of the index.
    unfoldable pub terms_of : Bool → Operator → List Text → List Term
    unfolding resume_search_words upper
    terms_of is_operator pending_operator [] = []
    terms_of true pending_operator (segment ∷ segments) =
        terms_of false (if eq_codes (map upper segment) (codes "OR") then either else both) segments
    terms_of false pending_operator (segment ∷ segments) =
        let rest = terms_of true pending_operator segments in
        elim (resume_search_words is_word lower (some segment)) [
          | [] ↦ rest
          | word ∷ words ↦ record { operator = pending_operator; words = word ∷ words } ∷ rest
        ]

    unfoldable pub parse_search_query : Option Text → List Term
    unfolding terms_of split_query
    parse_search_query none = []
    parse_search_query (some raw_query) = elim (strip is_space raw_query) [
      | [] ↦ []
      | c ∷ query ↦ terms_of false both (split_query 0 [] (c ∷ query))
    ]
