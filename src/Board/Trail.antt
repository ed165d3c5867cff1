-- ===== src/Board/Trail.antt =====
-- The history of an application as a trail of moves of the state machine, and what the tables keep.
use ats_smart_backend.Prelude.{
  ℕ, String, ◌≡◌, ◌≢◌, refl, sym, subst, ==_iff, ◌∙◌, List, [], ◌∷◌, arith, All, ◌==◌, inl, inr,
  Bool-cases,
}
use ats_smart_backend.StateMachine.Moves.{Allowed}
use ats_smart_backend.Board.{Application, StatusHistory, Db, save}
use ats_smart_backend.Board.Tables.{rows, rows-cons, save-All}

-- `l` is the history, newest row first, of the application `i` of the tenant `t`, and leads by allowed
-- moves from "Draft" to `s`.
abbrev pub Trail : ℕ → ℕ → List StatusHistory → String → Type 0
Trail i t [] s = s ≡ "Draft"
Trail i t (h ∷ l) s =
    (h.application_id ≡ i)
    × (h.tenant_id ≡ t)
    × (h.new_status ≡ s)
    × Allowed h.old_status h.new_status
    × Trail i t l h.old_status

-- The recorded history of an application explains its status.
abbrev pub Explains : List StatusHistory → Application → Type 0
Explains history a = Trail a.id a.tenant_id (rows a.id history) a.current_status

pub record IsConsistent (db : Db) : Type 0 where
  pub explained : All (Explains db.history) db.applications
  pub trails : (i : ℕ) → (t : ℕ) × (s : String) × Trail i t (rows i db.history) s

module _ (db : Db) (v : IsConsistent db) (a : Application) (h : StatusHistory) where
  -- A row of the history that a change of `a` adds extends the trail of `a` and no other.
  rows-ne : (i : ℕ) → i ≢ h.application_id → rows i (h ∷ db.history) ≡ rows i db.history
  rows-ne i e = rw rows-cons (ground arith)

  rows-eq : (i : ℕ) → h.application_id ≡ i → rows i (h ∷ db.history) ≡ h ∷ rows i db.history
  rows-eq i e = rw rows-cons (ground arith)

  module _ (own : Explains db.history a) (same_id : h.application_id ≡ a.id)
      (same_tenant : h.tenant_id ≡ a.tenant_id) (old : h.old_status ≡ a.current_status)
      (allowed : Allowed h.old_status h.new_status) where
    extended : Trail a.id a.tenant_id (rows a.id (h ∷ db.history)) h.new_status
    extended = rw (rows-eq a.id same_id) (same_id, same_tenant, refl, allowed, rw old own)

    pub trails_of_change : (i : ℕ) → (t : ℕ) × (s : String) × Trail i t (rows i (h ∷ db.history)) s
    trails_of_change i = elim (Bool-cases (h.application_id == i)) [
      | inl e ↦
          subst (λ j. (t : ℕ) × (s : String) × Trail j t (rows j (h ∷ db.history)) s)
            (sym same_id ∙ (==_iff h.application_id i).0 e) (a.tenant_id, h.new_status, extended)
      | inr e ↦ rw (rows-ne i (ground arith)) (v.trails i)
    ]

    pub explained_of_change :
        (row : Application)
        → row.id ≡ a.id
        → row.tenant_id ≡ a.tenant_id
        → row.current_status ≡ h.new_status
        → All (Explains (h ∷ db.history)) (save row db.applications)
    explained_of_change row e f g =
        save-All row db.applications (λ b other k. rw (rows-ne b.id (ground arith)) k)
          (rw (e, f, g) extended) v.explained
