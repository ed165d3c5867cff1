-- ===== src/Board/Stages.antt =====
-- A trail that went through a stage went through the one before it.
use ats_smart_backend.Prelude.{
  ℕ, String, ◌≡◌, ◌≢◌, refl, sym, ap, ◌∙◌, Bool, true, List, [], ◌∷◌, arith, ◌&&◌, str_eq, eq_iff,
  any, Bool-cases, inl, inr, subst,
}
use ats_smart_backend.StateMachine.{
  ApplicationStatus, draft, applied, screening, technical_interview, hr_interview, offer, accepted,
  hired, value,
}
use ats_smart_backend.StateMachine.Moves.{
  Move, screen, interview, interview_hr, propose, accept, hire, Allowed, value-injective,
}
use ats_smart_backend.Board.{StatusHistory}
use ats_smart_backend.Board.Trail.{Trail}

-- A row that is kept, by its application and tenant, and has the status of a stage.
abbrev pub counted : (ℕ → ℕ → Bool) → String → StatusHistory → Bool
counted keep stage h = keep h.application_id h.tenant_id && str_eq h.new_status stage

-- the stage that an allowed row left, where only one stage leads to the row's status
left_stage :
    (a b : ApplicationStatus)
    → ((x : ApplicationStatus) → Move x b → x ≡ a)
    → (old new : String) → Allowed old new
    → new ≡ value b
    → old ≡ value a
left_stage a b only old new (x, y, e, f, m) n =
    let here : y ≡ b = value-injective y b (sym f ∙ n) in
    e ∙ ap value (only x (subst (λ z. Move x z) here m))

module _ (keep : ℕ → ℕ → Bool) (a : ApplicationStatus) (first : value a ≢ "Draft") where
  -- the last row of a trail that leads to `a`
  pub last_row :
      (i t : ℕ) (l : List StatusHistory) (s : String)
      → Trail i t l s
      → s ≡ value a
      → keep i t ≡ true
      → any (counted keep (value a)) l ≡ true
  unfolding any
  last_row i t [] s k e h = absurd (first (sym e ∙ k))
  last_row i t (r ∷ l) s k e h = ground (arith, k.0, k.1, k.2, eq_iff r.new_status (value a))

module _ (keep : ℕ → ℕ → Bool) (a b : ApplicationStatus) (first : value a ≢ "Draft")
    (only : (x : ApplicationStatus) → Move x b → x ≡ a) where
  -- A trail that went through `b` went through `a`, the only stage before it.
  pub stage_before :
      (i t : ℕ) (l : List StatusHistory) (s : String)
      → Trail i t l s
      → any (counted keep (value b)) l ≡ true
      → any (counted keep (value a)) l ≡ true
  unfolding any
  stage_before i t [] s k h = cc
  stage_before i t (r ∷ l) s k h = elim (Bool-cases (any (counted keep (value b)) l)) [
    | inl e ↦ ground (arith, stage_before i t l r.old_status k.4 e)
    | inr e ↦
        let here : counted keep (value b) r ≡ true = ground arith in
        let new : r.new_status ≡ value b = (eq_iff r.new_status (value b)).0 (ground arith) in
        let kept : keep i t ≡ true = ground (arith, k.0, k.1) in
        ground (
          arith,
          last_row keep a first i t l r.old_status k.4
              (left_stage a b only r.old_status r.new_status k.3 new) kept,
        )
  ]

-- Each stage behind the first has one stage before it.
pub only_applied : (x : ApplicationStatus) → Move x screening → x ≡ applied
only_applied x screen = refl

pub only_screening : (x : ApplicationStatus) → Move x technical_interview → x ≡ screening
only_screening x interview = refl

pub only_technical : (x : ApplicationStatus) → Move x hr_interview → x ≡ technical_interview
only_technical x interview_hr = refl

pub only_hr : (x : ApplicationStatus) → Move x offer → x ≡ hr_interview
only_hr x propose = refl

pub only_offer : (x : ApplicationStatus) → Move x accepted → x ≡ offer
only_offer x accept = refl

pub only_accepted : (x : ApplicationStatus) → Move x hired → x ≡ accepted
only_accepted x hire = refl

-- not the draft
pub not_draft : (a : ApplicationStatus) → a ≢ draft → value a ≢ "Draft"
not_draft a h e = h (value-injective a draft e)
