-- ===== src/Tests/SkillGraph.antt =====
-- A text with the names of frameworks, searched for skills, and the score of its writer.
use ats_smart_backend.Prelude.{
  codes, ℕ, ◌+◌, ◌≡◌, refl, Bool, true, false, List, [], ◌∷◌, any, leb, ◌==◌, ◌&&◌, ◌||◌, map,
  if◌then◌else◌,
}
use ats_smart_backend.Search.{Text}
use ats_smart_backend.Matching.{Language, matched_skills, is_among}
use ats_smart_backend.SkillGraph.{
  match_skills, count_skill_mentions, get_core_skill, skill_lookup_table,
}
use ats_smart_backend.SkillGraph.Detected.{are_new, is_about, match_skills-count_skill_mentions}

abbrev lower_letter : ℕ → ℕ
lower_letter c = if leb b'A' c && leb c b'Z' then c + 32 else c

abbrev lower : Text → Text
lower text = map lower_letter text

abbrev is_space : ℕ → Bool
is_space c = c == b' '

abbrev resume : Text
resume = codes "Django, JavaScript; django and node.js, Javax"

found :
    match_skills lower is_space resume
    ≡ codes "Django" ∷ codes "JavaScript" ∷ codes "Node.js" ∷ codes "Python" ∷ []
unfolding match_skills
found = refl

counted :
    count_skill_mentions lower is_space resume
    ≡ (codes "Django", (codes "Python", 2))
      ∷ (codes "JavaScript", (codes "JavaScript", 1))
      ∷ (codes "Node.js", (codes "JavaScript", 1))
      ∷ []
unfolding count_skill_mentions
counted = refl

core : get_core_skill lower is_space (codes " fastapi") ≡ codes "Python"
unfolding get_core_skill ats_smart_backend.Prelude.strip
core = refl

-- The skill graph in the place of the parameters of the matching engine
abbrev english : Language
english = record {
  lower = lower;
  is_word = λ c. leb b'a' (lower_letter c) && leb (lower_letter c) b'z';
  is_space = is_space;
  get_core_skill = get_core_skill lower is_space;
  match_skills = match_skills lower is_space;
}

matched :
    matched_skills english
      (codes "FastAPI" ∷ codes "Docker" ∷ [])
      (match_skills lower is_space resume)
    ≡ codes "FastAPI" ∷ []
unfolding matched_skills match_skills get_core_skill ats_smart_backend.Prelude.strip
matched = refl

names_differ : are_new [] (skill_lookup_table lower is_space) ≡ true
unfolding are_new skill_lookup_table is_among
names_differ = refl

match_skills-count_skill_mentions_example :
    is_among (match_skills lower is_space resume) (codes "Python")
    ≡ any (is_about (codes "Python")) (count_skill_mentions lower is_space resume)
match_skills-count_skill_mentions_example =
    match_skills-count_skill_mentions lower is_space resume (codes "Python") names_differ
