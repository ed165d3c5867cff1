-- ===== src/SkillGraph.antt =====
-- app/core/skill_graph.py: the graph of skills, and the search of a text for its skills. Texts are code
-- points; `str.lower` and white space are parameters. A dict is its rows in the order of insertion.
use ats_smart_backend.Prelude.{
  codes, eq_codes, starts_with, strip, ℕ, ◌+◌, ◌-◌, Bool, true, false, Option, none, some, List, [],
  ◌∷◌, not, length, leb, ltb, ◌==◌, ◌&&◌, ◌||◌, if◌then◌else◌, drop, sort_by,
}
use ats_smart_backend.Search.{Text}
use ats_smart_backend.Matching.{distinct, lookup}
pub mod Detected

abbrev pub skill_ontology : List (Text × List Text)
skill_ontology =
    (
      codes "Python",
      codes "FastAPI"
          ∷ codes "Django"
          ∷ codes "Flask"
          ∷ codes "Pandas"
          ∷ codes "NumPy"
          ∷ codes "PyTest"
          ∷ codes "SQLAlchemy"
          ∷ [],
    )
    ∷ (
      codes "JavaScript",
      codes "TypeScript"
          ∷ codes "React"
          ∷ codes "React.js"
          ∷ codes "Vue.js"
          ∷ codes "Angular"
          ∷ codes "Node.js"
          ∷ codes "Express.js"
          ∷ codes "Next.js"
          ∷ [],
    )
    ∷ (codes "Java", codes "Spring" ∷ codes "Spring Boot" ∷ codes "Hibernate" ∷ [])
    ∷ (codes "C#", codes "ASP.NET" ∷ codes ".NET Core" ∷ [])
    ∷ (
      codes "SQL",
      codes "PostgreSQL"
          ∷ codes "MySQL"
          ∷ codes "SQL Server"
          ∷ codes "SQLite"
          ∷ codes "Oracle Database"
          ∷ [],
    )
    ∷ (
      codes "NoSQL",
      codes "MongoDB" ∷ codes "Redis" ∷ codes "Cassandra" ∷ codes "Elasticsearch" ∷ [],
    )
    ∷ (
      codes "DevOps",
      codes "Docker"
          ∷ codes "Kubernetes"
          ∷ codes "Jenkins"
          ∷ codes "Terraform"
          ∷ codes "Ansible"
          ∷ codes "CI/CD"
          ∷ [],
    )
    ∷ (
      codes "Cloud Computing",
      codes "AWS" ∷ codes "Azure" ∷ codes "GCP" ∷ codes "Google Cloud" ∷ [],
    )
    ∷ (
      codes "Machine Learning",
      codes "Deep Learning"
          ∷ codes "PyTorch"
          ∷ codes "TensorFlow"
          ∷ codes "Scikit-learn"
          ∷ codes "Keras"
          ∷ [],
    )
    ∷ (
      codes "Project Management",
      codes "Scrum" ∷ codes "Agile" ∷ codes "Kanban" ∷ codes "Jira" ∷ [],
    )
    ∷ (codes "UI/UX Design", codes "Figma" ∷ codes "Adobe XD" ∷ codes "Sketch" ∷ [])
    ∷ []

-- A row of the lookup table: the keyword, the name to show and the core skill
abbrev pub Rows : Type 0
Rows = List (Text × (Text × Text))

-- `d[key] = value` on a dict
unfoldable pub set_row : {A : Type 0} → Text → A → List (Text × A) → List (Text × A)
set_row key value [] = (key, value) ∷ []
set_row key value ((k, v) ∷ rows) =
    let rest = set_row key value rows in if eq_codes k key then (k, value) ∷ rows else (k, v) ∷ rest

-- The two boundaries of a keyword: no letter and no digit beside it
unfoldable pub is_alnum : ℕ → Bool
is_alnum c = leb b'a' c && leb c b'z' || leb b'A' c && leb c b'Z' || leb b'0' c && leb c b'9'

unfoldable pub begins_with_alnum : Text → Bool
unfolding is_alnum
begins_with_alnum [] = false
begins_with_alnum (c ∷ text) = is_alnum c

-- The pattern matches here; `after` says that a letter or a digit is right before.
unfoldable pub matches : Bool → Text → Text → Bool
unfolding begins_with_alnum
matches after keyword text =
    not after && starts_with keyword text && not (begins_with_alnum (drop (length keyword) text))

-- `re.search`, for a keyword that is not empty
unfoldable pub is_found : Bool → Text → Text → Bool
unfolding matches is_alnum
is_found after keyword [] = false
is_found after keyword (c ∷ text) =
    matches after keyword (c ∷ text) || is_found (is_alnum c) keyword text

-- `len(re.findall(...))`: the characters of a match are skipped.
unfoldable pub count_found : Bool → ℕ → Text → Text → ℕ
unfolding matches is_alnum
count_found after skip keyword [] = 0
count_found after skip keyword (c ∷ text) =
    let skipping = count_found (is_alnum c) (skip - 1) keyword text in
    let matched = count_found (is_alnum c) (length keyword - 1) keyword text in
    let next = count_found (is_alnum c) 0 keyword text in
    if ltb 0 skip then skipping else if matches after keyword (c ∷ text) then 1 + matched else next

unfoldable pub leb_codes : Text → Text → Bool
leb_codes [] t = true
leb_codes (c ∷ s) [] = false
leb_codes (c ∷ s) (d ∷ t) = ltb c d || c == d && leb_codes s t

unfoldable pub detected_skills : Text → Rows → List Text
unfolding is_found
detected_skills lowered_text [] = []
detected_skills lowered_text ((keyword, (display_name, core_skill)) ∷ rows) =
    let rest = detected_skills lowered_text rows in
    if is_found false keyword lowered_text then display_name ∷ core_skill ∷ rest else rest

-- `mentions.get(display_name, (core_skill, 0))[1]`
unfoldable pub times_before : Option (Text × ℕ) → ℕ
times_before none = 0
times_before (some entry) = entry.1

-- The names that are mentioned, with their core skill and how often
unfoldable pub mentions : Text → Rows → List (Text × (Text × ℕ)) → List (Text × (Text × ℕ))
unfolding count_found set_row lookup times_before
mentions lowered_text [] so_far = so_far
mentions lowered_text ((keyword, (display_name, core_skill)) ∷ rows) so_far =
    let count = count_found false 0 keyword lowered_text in
    let more = mentions lowered_text rows (
      set_row display_name (core_skill, times_before (lookup display_name so_far) + count)
        so_far) in
    let same = mentions lowered_text rows so_far in if ltb 0 count then more else same

module _ (lower : Text → Text) (is_space : ℕ → Bool) where
  unfoldable pub add_sub_skills : Text → List Text → Rows → Rows
  unfolding set_row
  add_sub_skills core_skill [] table = table
  add_sub_skills core_skill (sub_skill ∷ sub_skills) table =
      add_sub_skills core_skill sub_skills (set_row (lower sub_skill) (sub_skill, core_skill) table)

  unfoldable pub build_lookup_table : List (Text × List Text) → Rows → Rows
  unfolding add_sub_skills set_row
  build_lookup_table [] table = table
  build_lookup_table ((core_skill, sub_skills) ∷ ontology) table = build_lookup_table ontology (
      add_sub_skills core_skill sub_skills
        (set_row (lower core_skill) (core_skill, core_skill) table))

  unfoldable pub skill_lookup_table : Rows
  unfolding build_lookup_table
  skill_lookup_table = build_lookup_table skill_ontology []

  unfoldable pub match_skills : Text → List Text
  unfolding detected_skills distinct leb_codes skill_lookup_table sort_by
  match_skills [] = []
  match_skills (c ∷ text) =
      sort_by leb_codes (distinct (detected_skills (lower (c ∷ text)) skill_lookup_table))

  unfoldable pub count_skill_mentions : Text → List (Text × (Text × ℕ))
  unfolding mentions skill_lookup_table
  count_skill_mentions [] = []
  count_skill_mentions (c ∷ text) = mentions (lower (c ∷ text)) skill_lookup_table []

  unfoldable pub get_core_skill : Text → Text
  unfolding lookup strip skill_lookup_table
  get_core_skill [] = []
  get_core_skill (c ∷ skill_name) =
      elim (lookup (lower (strip is_space (c ∷ skill_name))) skill_lookup_table) [
        | none ↦ c ∷ skill_name
        | some entry ↦ entry.1
      ]
