-- ===== src/StateMachine.antt =====
-- app/core/state_machine.py: the statuses of an application, as the strings that the database holds,
-- and the test of a move on the kanban board. A `frozenset` is a list that is only searched.
pub mod Moves
use ats_smart_backend.Prelude.{
  ℕ, zero, suc, ◌+◌, String, Bool, true, false, Option, none, some, List, [], ◌∷◌, str_eq, any,
  length, ltb, if◌then◌else◌,
}

pub data ApplicationStatus : Type 0 where
  draft applied screening technical_interview hr_interview offer accepted hired rejected :
      ApplicationStatus

-- `ApplicationStatus.X.value`
abbrev pub value : ApplicationStatus → String
value draft = "Draft"
value applied = "Applied"
value screening = "Screening"
value technical_interview = "Technical Interview"
value hr_interview = "HR Interview"
value offer = "Offer"
value accepted = "Accepted"
value hired = "Hired"
value rejected = "Rejected"

-- `_LINEAR_PATH`
abbrev pub linear_path : List String
linear_path =
    value draft
    ∷ value applied
    ∷ value screening
    ∷ value technical_interview
    ∷ value hr_interview
    ∷ value offer
    ∷ value accepted
    ∷ value hired
    ∷ []

-- `TERMINAL_STATUSES`
abbrev pub terminal_statuses : List String
terminal_statuses = value hired ∷ value rejected ∷ []

-- `FUNNEL_STAGES`
abbrev pub funnel_stages : List String
funnel_stages =
    value applied
    ∷ value screening
    ∷ value technical_interview
    ∷ value hr_interview
    ∷ value offer
    ∷ value accepted
    ∷ value hired
    ∷ []

-- `s in xs`
unfoldable pub contains : List String → String → Bool
unfolding any
contains xs s = any (λ x. str_eq x s) xs

-- `xs.index(s)`; the caller has tested that `s` is there, and 0 stands for the exception.
unfoldable pub index : List String → String → ℕ
index [] s = 0
index (x ∷ xs) s = let i = index xs s in if str_eq x s then 0 else suc i

-- `xs[i]`; the caller has tested the bound, and "" stands for the exception.
abbrev pub get_elem : List String → ℕ → String
get_elem [] i = ""
get_elem (x ∷ xs) zero = x
get_elem (x ∷ xs) (suc i) = get_elem xs i

unfoldable pub get_allowed_next_statuses : String → List String
unfolding contains index
get_allowed_next_statuses current_status =
    if contains terminal_statuses current_status
    then []
    else if contains linear_path current_status
    then (let next_index = index linear_path current_status + 1 in
        let rejection = value rejected ∷ [] in
        if ltb next_index (length linear_path)
        then get_elem linear_path next_index ∷ rejection
        else rejection)
    else []

unfoldable pub is_transition_allowed : String → String → Bool
unfolding get_allowed_next_statuses
is_transition_allowed current_status new_status =
    contains (get_allowed_next_statuses current_status) new_status
