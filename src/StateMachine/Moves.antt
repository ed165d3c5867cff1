-- ===== src/StateMachine/Moves.antt =====
-- The moves that app/core/state_machine.py describes in its header, as a relation, and that the code
-- allows exactly these.
use mathlib.Core.Option.{some-injective}
use ats_smart_backend.Prelude.{
  Option, none, some, ap, ◌∙◌, String, ◌≡◌, refl, sym, ◌↔◌, ◌⊎◌, inl, inr, Bool, true, false, List,
  [], ◌∷◌, map, arith, str_eq, eq_iff, Bool-cases, subst, if◌then◌else◌,
}
use ats_smart_backend.StateMachine.{
  ApplicationStatus, draft, applied, screening, technical_interview, hr_interview, offer, accepted,
  hired, rejected, value, contains, linear_path, terminal_statuses, is_transition_allowed,
}

-- One step ahead on the linear path, or a rejection from any stage that is not terminal.
pub data Move : ApplicationStatus → ApplicationStatus → Type 0 where
  apply : Move draft applied
  screen : Move applied screening
  interview : Move screening technical_interview
  interview_hr : Move technical_interview hr_interview
  propose : Move hr_interview offer
  accept : Move offer accepted
  hire : Move accepted hired
  reject_draft : Move draft rejected
  reject_applied : Move applied rejected
  reject_screening : Move screening rejected
  reject_technical : Move technical_interview rejected
  reject_hr : Move hr_interview rejected
  reject_offer : Move offer rejected
  reject_accepted : Move accepted rejected

module _ (s : String) where
  contains-value :
      (known : List ApplicationStatus)
      → contains (map value known) s ≡ true
      → (a : ApplicationStatus) × (s ≡ value a)
  unfolding contains
  contains-value [] h = cc
  contains-value (a ∷ known) h = elim (Bool-cases (str_eq (value a) s)) [
    | inl e ↦ (a, sym ((eq_iff (value a) s).0 e))
    | inr e ↦ contains-value known (rw e at h)
  ]

  linear_path-value : contains linear_path s ≡ true → (a : ApplicationStatus) × (s ≡ value a)
  linear_path-value = contains-value (
      draft ∷ applied ∷ screening ∷ technical_interview ∷ hr_interview ∷ offer ∷ accepted ∷ hired
      ∷ [])

  contains-pair : (x y : String) → contains (x ∷ y ∷ []) s ≡ true → (s ≡ x) ⊎ (s ≡ y)
  unfolding contains
  contains-pair x y h = ground (arith, eq_iff x s, eq_iff y s)

abbrev pub Allowed : String → String → Type 0
Allowed c n =
    (a : ApplicationStatus) × (b : ApplicationStatus) × (c ≡ value a) × (n ≡ value b) × Move a b

-- the two targets of a stage
targets :
    {a b d : ApplicationStatus} (n : String)
    → Move a b
    → Move a d
    → contains (value b ∷ value d ∷ []) n ≡ true
    → Allowed (value a) n
targets {a} {b} {d} n m k h = elim (contains-pair n (value b) (value d) h) [
  | inl e ↦ (a, b, refl, e, m)
  | inr e ↦ (a, d, refl, e, k)
]

Allowed-of_value :
    (a : ApplicationStatus) (n : String)
    → is_transition_allowed (value a) n ≡ true
    → Allowed (value a) n
unfolding is_transition_allowed
Allowed-of_value draft n h = targets n apply reject_draft h
Allowed-of_value applied n h = targets n screen reject_applied h
Allowed-of_value screening n h = targets n interview reject_screening h
Allowed-of_value technical_interview n h = targets n interview_hr reject_technical h
Allowed-of_value hr_interview n h = targets n propose reject_hr h
Allowed-of_value offer n h = targets n accept reject_offer h
Allowed-of_value accepted n h = targets n hire reject_accepted h
Allowed-of_value hired n h = cc
Allowed-of_value rejected n h = cc

guarded :
    (t p : Bool) (xs : List String) (n : String)
    → contains (if t then [] else if p then xs else []) n ≡ true
    → p ≡ true
unfolding contains
guarded true p xs n h = cc
guarded false true xs n h = refl
guarded false false xs n h = cc

-- what is allowed starts from a stage of the linear path
linear_path_of_allowed :
    (c n : String) → is_transition_allowed c n ≡ true → contains linear_path c ≡ true
unfolding is_transition_allowed
linear_path_of_allowed c n h = guarded (contains terminal_statuses c) (contains linear_path c) _ n h

pub Allowed-of_is_transition_allowed :
    (c n : String) → is_transition_allowed c n ≡ true → Allowed c n
Allowed-of_is_transition_allowed c n h =
    let (a, e) = linear_path-value c (linear_path_of_allowed c n h) in
    subst (λ x. Allowed x n) (sym e)
      (Allowed-of_value a n (subst (λ x. is_transition_allowed x n ≡ true) e h))

pub is_transition_allowed-Move :
    {a b : ApplicationStatus} → Move a b → is_transition_allowed (value a) (value b) ≡ true
unfolding is_transition_allowed
is_transition_allowed-Move apply = refl
is_transition_allowed-Move screen = refl
is_transition_allowed-Move interview = refl
is_transition_allowed-Move interview_hr = refl
is_transition_allowed-Move propose = refl
is_transition_allowed-Move accept = refl
is_transition_allowed-Move hire = refl
is_transition_allowed-Move reject_draft = refl
is_transition_allowed-Move reject_applied = refl
is_transition_allowed-Move reject_screening = refl
is_transition_allowed-Move reject_technical = refl
is_transition_allowed-Move reject_hr = refl
is_transition_allowed-Move reject_offer = refl
is_transition_allowed-Move reject_accepted = refl

-- For all strings, known statuses or not: a move is allowed exactly when the two strings are the
-- values of two statuses of which the second is the next on the linear path or a rejection of a
-- stage that is not terminal.
pub is_transition_allowed_iff : (c n : String) → (is_transition_allowed c n ≡ true) ↔ Allowed c n
is_transition_allowed_iff c n = (
  Allowed-of_is_transition_allowed c n,
  λ w.
      subst (λ x. is_transition_allowed x n ≡ true) (sym w.2)
        (subst (λ y. is_transition_allowed (value w.0) y ≡ true) (sym w.3)
          (is_transition_allowed-Move w.4)),
)

-- Reads a status back from its value.
parse : String → Option ApplicationStatus
parse s =
    if str_eq s "Draft"
    then some draft
    else if str_eq s "Applied"
    then some applied
    else if str_eq s "Screening"
    then some screening
    else if str_eq s "Technical Interview"
    then some technical_interview
    else if str_eq s "HR Interview"
    then some hr_interview
    else if str_eq s "Offer"
    then some offer
    else if str_eq s "Accepted"
    then some accepted
    else if str_eq s "Hired"
    then some hired
    else if str_eq s "Rejected"
    then some rejected
    else none

parse-value : (a : ApplicationStatus) → parse (value a) ≡ some a
unfolding parse
parse-value draft = refl
parse-value applied = refl
parse-value screening = refl
parse-value technical_interview = refl
parse-value hr_interview = refl
parse-value offer = refl
parse-value accepted = refl
parse-value hired = refl
parse-value rejected = refl

-- Two statuses have different values.
pub value-injective : (a b : ApplicationStatus) → value a ≡ value b → a ≡ b
value-injective a b e = some-injective a b (sym (parse-value a) ∙ ap parse e ∙ parse-value b)

pub Allowed-Move : {a b : ApplicationStatus} → Allowed (value a) (value b) → Move a b
Allowed-Move {a} {b} (x, y, e, f, m) =
    subst (λ z. Move z b) (sym (value-injective a x e))
      (subst (λ z. Move x z) (sym (value-injective b y f)) m)
