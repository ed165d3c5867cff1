-- ===== src/SkillGraph/Detected.antt =====
-- Which skills the search of a text finds.
use ats_smart_backend.Prelude.{
  eq_codes, eq_codes_eq, ℕ, ◌+◌, ◌≡◌, refl, sym, ◌∙◌, ap, Bool, true, false, none, some, List, [],
  ◌∷◌, any, not, ltb, ◌&&◌, ◌||◌, if◌then◌else◌, Bool-cases, inl, inr, arith, any-sort_by,
}
use ats_smart_backend.Search.{Text}
use ats_smart_backend.Matching.{is_among, distinct, lookup}
use ats_smart_backend.SkillGraph.{
  Rows, set_row, times_before, mentions, count_skill_mentions, is_alnum, matches, is_found,
  count_found, leb_codes, detected_skills, skill_lookup_table, match_skills,
}

among-distinct : (texts : List Text) (t : Text) → is_among (distinct texts) t ≡ is_among texts t
unfolding distinct is_among any
among-distinct [] t = refl
among-distinct (s ∷ texts) t = elim (Bool-cases (is_among (distinct texts) s)) [
  | inl again ↦ rw again (elim (Bool-cases (eq_codes s t)) [
    | inl same ↦
        rw same (ap (λ u. is_among (distinct texts) u) (sym (eq_codes_eq s t same)) ∙ again)
    | inr other ↦ rw other (among-distinct texts t)
  ])
  | inr new ↦ rw (new, among-distinct texts t) refl
]

count_found-is_found :
    (keyword text : Text) (after : Bool)
    → ltb 0 (count_found after 0 keyword text) ≡ is_found after keyword text
unfolding count_found is_found
count_found-is_found keyword [] after = refl
count_found-is_found keyword (c ∷ text) after =
    elim (Bool-cases (matches after keyword (c ∷ text))) [
      | inl here ↦ rw here (ground arith)
      | inr later ↦ rw later (count_found-is_found keyword text (is_alnum c))
    ]

-- A skill is the name or the core of a row whose keyword is counted at least once in a text.
unfoldable pub mentioned_by : Text → Rows → Text → Bool
mentioned_by lowered_text [] skill = false
mentioned_by lowered_text ((keyword, (display_name, core_skill)) ∷ rows) skill =
    ltb 0 (count_found false 0 keyword lowered_text)
      && (eq_codes display_name skill || eq_codes core_skill skill)
    || mentioned_by lowered_text rows skill

among-detected_skills :
    (lowered_text : Text) (rows : Rows) (skill : Text)
    → is_among (detected_skills lowered_text rows) skill ≡ mentioned_by lowered_text rows skill
unfolding detected_skills is_among any mentioned_by
among-detected_skills lowered_text [] skill = refl
among-detected_skills lowered_text ((keyword, (display_name, core_skill)) ∷ rows) skill =
    rw (count_found-is_found keyword lowered_text false) (
      by_search (is_found false keyword lowered_text)
        (among-detected_skills lowered_text rows skill))
  where
    by_search :
        (b : Bool)
        → is_among (detected_skills lowered_text rows) skill ≡ mentioned_by lowered_text rows skill
        → is_among
            (if b
              then display_name ∷ core_skill ∷ detected_skills lowered_text rows
              else detected_skills lowered_text rows)
            skill
          ≡ (b && (eq_codes display_name skill || eq_codes core_skill skill)
              || mentioned_by lowered_text rows skill)
    by_search true h = ground (arith, h)
    by_search false h = h

-- The display names of the rows are new, and differ from one another.
unfoldable pub are_new : List Text → Rows → Bool
are_new seen [] = true
are_new seen ((keyword, (display_name, core_skill)) ∷ rows) =
    not (is_among seen display_name) && are_new (display_name ∷ seen) rows

-- A count that is about a skill: under its name, or under the name of a skill with this core
unfoldable pub is_about : Text → Text × (Text × ℕ) → Bool
is_about skill row = eq_codes row.0 skill || eq_codes row.1.0 skill

lookup-here :
    {A : Type 0} (key k : Text) (v : A) (rows : List (Text × A))
    → eq_codes k key ≡ true
    → lookup key ((k, v) ∷ rows) ≡ some v
unfolding lookup
lookup-here key k v rows e = rw e refl

lookup-later :
    {A : Type 0} (key k : Text) (v : A) (rows : List (Text × A))
    → eq_codes k key ≡ false
    → lookup key ((k, v) ∷ rows) ≡ lookup key rows
unfolding lookup
lookup-later key k v rows e = rw e refl

any-set_row :
    (q : Text × (Text × ℕ) → Bool) (key : Text) (value : Text × ℕ) (rows : List (Text × (Text × ℕ)))
    → lookup key rows ≡ none
    → any q (set_row key value rows) ≡ (any q rows || q (key, value))
unfolding any set_row
any-set_row q key value [] h = ground arith
any-set_row q key value ((k, v) ∷ rows) h = elim (Bool-cases (eq_codes k key)) [
  | inl same ↦ cc (sym (lookup-here key k v rows same) ∙ h)
  | inr other ↦
      rw (other, any-set_row q key value rows (sym (lookup-later key k v rows other) ∙ h))
        (ground arith)
]

-- What was counted so far is about names in `seen`.
IsWithin : List Text → List (Text × (Text × ℕ)) → Type 0
IsWithin seen so_far = (t : Text) → is_among seen t ≡ false → lookup t so_far ≡ none

lookup-set_row :
    {A : Type 0} (t key : Text) (value : A) (rows : List (Text × A))
    → eq_codes key t ≡ false
    → lookup t (set_row key value rows) ≡ lookup t rows
unfolding set_row lookup
lookup-set_row t key value [] h = rw h refl
lookup-set_row t key value ((k, v) ∷ rows) h = elim (Bool-cases (eq_codes k key)) [
  | inl same ↦ rw (same, eq_codes_eq k key same, h) refl
  | inr other ↦ rw (other, lookup-set_row t key value rows h) refl
]

IsWithin-same :
    (seen : List Text) (name : Text) (so_far : List (Text × (Text × ℕ)))
    → IsWithin seen so_far
    → IsWithin (name ∷ seen) so_far
unfolding IsWithin is_among any
IsWithin-same seen name so_far h t new = h t (ground (arith, new))

IsWithin-more :
    (seen : List Text) (name : Text) (value : Text × ℕ) (so_far : List (Text × (Text × ℕ)))
    → IsWithin seen so_far
    → IsWithin (name ∷ seen) (set_row name value so_far)
unfolding IsWithin is_among any
IsWithin-more seen name value so_far h t new =
    lookup-set_row t name value so_far (ground (arith, new)) ∙ h t (ground (arith, new))

any-mentions :
    (lowered_text skill : Text) (rows : Rows) (seen : List Text) (so_far : List (Text × (Text × ℕ)))
    → are_new seen rows ≡ true
    → IsWithin seen so_far
    → any (is_about skill) (mentions lowered_text rows so_far)
      ≡ (any (is_about skill) so_far || mentioned_by lowered_text rows skill)
unfolding mentions mentioned_by are_new IsWithin is_about
any-mentions lowered_text skill [] seen so_far new within = ground arith
any-mentions lowered_text skill ((keyword, (name, core)) ∷ rows) seen so_far new within =
    elim (Bool-cases (ltb 0 (count_found false 0 keyword lowered_text))) [
      | inl counted ↦ rw counted (
          any-mentions lowered_text skill rows (name ∷ seen)
            (set_row name
              (core, times_before (lookup name so_far) + count_found false 0 keyword lowered_text)
              so_far)
            (ground (arith, new))
            (IsWithin-more seen name
              (core, times_before (lookup name so_far) + count_found false 0 keyword lowered_text)
              so_far within)
          ∙ rw
              (any-set_row (is_about skill) name
                (core, times_before (lookup name so_far) + count_found false 0 keyword lowered_text)
                so_far (within name (ground (arith, new))))
              (ground arith))
      | inr missing ↦ rw missing (
          any-mentions lowered_text skill rows (name ∷ seen) so_far (ground (arith, new))
            (IsWithin-same seen name so_far within))
    ]

module _ (lower : Text → Text) (is_space : ℕ → Bool) where
  -- When the names of the lookup table differ, the skills that match_skills finds in a text are exactly
  -- the skills that count_skill_mentions counts and their core skills.
  pub match_skills-count_skill_mentions :
      (text skill : Text)
      → are_new [] (skill_lookup_table lower is_space) ≡ true
      → is_among (match_skills lower is_space text) skill
        ≡ any (is_about skill) (count_skill_mentions lower is_space text)
  unfolding match_skills count_skill_mentions is_among any IsWithin
  match_skills-count_skill_mentions [] skill new = refl
  match_skills-count_skill_mentions (c ∷ text) skill new =
      any-sort_by leb_codes (λ t. eq_codes t skill)
        (distinct (detected_skills (lower (c ∷ text)) (skill_lookup_table lower is_space)))
      ∙ among-distinct (detected_skills (lower (c ∷ text)) (skill_lookup_table lower is_space))
          skill
      ∙ among-detected_skills (lower (c ∷ text)) (skill_lookup_table lower is_space) skill
      ∙ sym (
          any-mentions (lower (c ∷ text)) skill (skill_lookup_table lower is_space) [] [] new
            (λ t h. refl))
