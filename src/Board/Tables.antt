-- ===== src/Board/Tables.antt =====
-- Selecting and saving rows of the `applications` table, and rows of the history.
use ats_smart_backend.Prelude.{
  false, ℕ, ◌≡◌, ◌≢◌, refl, true, Option, none, some, List, [], ◌∷◌, arith, filter, All, Bool-cases,
  ◌==◌, inl, inr, Bool, if◌then◌else◌, ◌&&◌, subst,
}
use mathlib.Core.Option.{some-injective}
use ats_smart_backend.Tenancy.{TenantContext, visible, stamp}
use ats_smart_backend.Board.{
  Application, StatusHistory, Db, Error, tenant_access_error, database_error, Handler, flush,
  find_application, save,
}
use ats_smart_backend.Exec.{Result, raised, ◌>>=◌}

-- The history of one application, newest row first.
unfoldable pub rows : ℕ → List StatusHistory → List StatusHistory
unfolding filter
rows application_id = filter (λ h. h.application_id == application_id)

pub rows-cons :
    (i : ℕ) (h : StatusHistory) (l : List StatusHistory)
    → rows i (h ∷ l) ≡ (if h.application_id == i then h ∷ rows i l else rows i l)
unfolding rows
rows-cons i h l = refl

module _ (context : TenantContext) (i : ℕ) where
  pub find_application-row :
      (l : List Application) {a : Application}
      → find_application context i l ≡ some a
      → (a.id ≡ i) × (visible context false a.tenant_id ≡ true)
  unfolding find_application
  find_application-row [] h = cc
  find_application-row (b ∷ l) {a} h =
      elim (Bool-cases (b.id == i && visible context false b.tenant_id)) [
        | inl e ↦ ground arith
        | inr e ↦ find_application-row l (rw e at h)
      ]

  pub find_application-All :
      (P : Application → Type 0) (l : List Application) {a : Application}
      → All P l
      → find_application context i l ≡ some a
      → P a
  unfolding find_application
  find_application-All P [] k h = cc
  find_application-All P (b ∷ l) {a} k h =
      elim (Bool-cases (b.id == i && visible context false b.tenant_id)) [
        | inl e ↦ subst P (some-injective b a (rw e at h)) k.0
        | inr e ↦ find_application-All P l k.1 (rw e at h)
      ]

pub save-All :
    {P Q : Application → Type 0} (row : Application) (l : List Application)
    → ((a : Application) → a.id ≢ row.id → P a → Q a)
    → Q row
    → All P l
    → All Q (save row l)
unfolding save
save-All row [] step q k = tt
save-All row (a ∷ l) step q k = elim (Bool-cases (a.id == row.id)) [
  | inl e ↦ rw e (q, save-All row l step q k.1)
  | inr e ↦ rw e (step a (ground arith) k.0, save-All row l step q k.1)
]

pub filter-All :
    (P : Application → Type 0) (p : Application → Bool) (l : List Application)
    → All P l
    → All P (filter p l)
unfolding filter
filter-All P p [] k = tt
filter-All P p (a ∷ l) k = elim (Bool-cases (p a)) [
  | inl e ↦ rw e (k.0, filter-All P p l k.1)
  | inr e ↦ rw e (filter-All P p l k.1)
]

-- The tenant that a tenant's context stamps is that of every row that it sees.
pub stamp-visible :
    (context : TenantContext) (t u : ℕ)
    → stamp context none ≡ some (some u)
    → visible context false t ≡ true
    → u ≡ t
unfolding stamp visible
stamp-visible context t u h k = ground arith

-- A tenant that the code writes itself is kept, or the flush fails.
pub stamp-given :
    (context : TenantContext) (t u : ℕ) → stamp context (some t) ≡ some (some u) → u ≡ t
unfolding stamp
stamp-given context t u h = ground arith

-- The rule for a flush of a new row.
module _ {B : Type 0} (Q : Db × Result Error B → Type 0) (db : Db) where
  pub after_flush :
      (o : Option (Option ℕ)) (f : ℕ → Handler B)
      → (o ≡ none → Q (db, raised tenant_access_error))
      → (o ≡ some none → Q (db, raised database_error))
      → ((t : ℕ) → o ≡ some (some t) → Q (f t db))
      → Q ((flush o >>= f) db)
  unfolding flush ◌>>=◌
  after_flush none f q r k = q refl
  after_flush (some none) f q r k = r refl
  after_flush (some (some t)) f q r k = k t refl

pub step_flush :
    {B : Type 0} (db : Db) {o : Option (Option ℕ)} {t : ℕ} (f : ℕ → Handler B)
    → o ≡ some (some t)
    → (flush o >>= f) db ≡ f t db
unfolding flush ◌>>=◌
step_flush db f h = rw h refl
