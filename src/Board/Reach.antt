-- ===== src/Board/Reach.antt =====
-- The databases that the handlers reach, in any order of requests by anybody, and their invariant.
use ats_smart_backend.Prelude.{
  ℕ, String, ◌≡◌, ◌≢◌, refl, sym, subst, [], ◌∷◌, arith, All, filter, eq_iff,
}
use ats_smart_backend.Exec.{
  Result, raised, ◌>>=◌, after_require, after_found, after_get, after_put, after_pure, after,
}
use ats_smart_backend.StateMachine.{ApplicationStatus, value}
use ats_smart_backend.StateMachine.Moves.{Allowed, is_transition_allowed_iff}
use ats_smart_backend.Tenancy.{TenantContext}
use ats_smart_backend.Board.{
  User, Application, StatusHistory, Db, Error, Decision, decided, Upload, save,
  update_application_status, get_or_create_candidate_profile, respond_to_offer, upload_resume,
  submit,
}
use ats_smart_backend.Board.Tables.{
  rows, find_application-row, find_application-All, filter-All, stamp-visible, stamp-given,
  after_flush,
}
use ats_smart_backend.Board.Trail.{
  Explains, Trail, IsConsistent, trails_of_change, explained_of_change,
}

-- The identifier that the database draws for a new application is in no row yet.
pub record IsFresh (i : ℕ) (db : Db) : Type 0 where
  pub no_application : All (λ a. a.id ≢ i) db.applications
  pub no_history : rows i db.history ≡ []

-- Any request, of any user in any context at any time.
pub data Step (db : Db) : Db → Type 0 where
  moved :
      (context : TenantContext) (user : User) (now i : ℕ) (current new : ApplicationStatus)
      → Step db (update_application_status context user now i current new db).0
  responded :
      (context : TenantContext) (user : User) (fresh now i : ℕ) (decision : Decision)
      → Step db (respond_to_offer context user fresh now i decision db).0
  uploaded :
      (user : User) (upload : Upload)
      → IsFresh upload.fresh_application db
      → Step db (upload_resume user upload db).0

-- What is reached from a database with no application and no history.
pub data Reach : Db → Type 0 where
  start : (db : Db) → db.applications ≡ [] → db.history ≡ [] → Reach db
  next : {db db' : Db} → Reach db → Step db db' → Reach db'

start-IsConsistent : (db : Db) → db.applications ≡ [] → db.history ≡ [] → IsConsistent db
unfolding rows filter
start-IsConsistent db e f = record {
  explained = subst (All (Explains db.history)) (sym e) tt;
  trails = λ i. (0, "Draft", subst (λ l. Trail i 0 (rows i l) "Draft") (sym f) refl);
}

-- The profile of a user is made without a word on the board.
abbrev SameBoard : Db → Db → Type 0
SameBoard db db' = (db'.applications ≡ db.applications) × (db'.history ≡ db.history)

get_or_create-SameBoard :
    (user : User) (fresh : ℕ) (db : Db)
    → SameBoard db (get_or_create_candidate_profile user fresh db).0
unfolding get_or_create_candidate_profile ◌>>=◌
get_or_create-SameBoard user fresh db = ground arith

pub get_or_create-answers :
    (user : User) (fresh : ℕ) (db : Db) (e : Error)
    → (get_or_create_candidate_profile user fresh db).1 ≢ raised e
unfolding get_or_create_candidate_profile ◌>>=◌
get_or_create-answers user fresh db e = ground arith

SameBoard-IsConsistent : (db db' : Db) → SameBoard db db' → IsConsistent db → IsConsistent db'
SameBoard-IsConsistent db db' same v = record {
  explained =
      subst (λ l. All (Explains db'.history) l) (sym same.0)
        (subst (λ h. All (Explains h) db.applications) (sym same.1) v.explained);
  trails =
      λ i. subst (λ h. (t : ℕ) × (s : String) × Trail i t (rows i h) s) (sym same.1) (v.trails i);
}

abbrev Keeps : {A : Type 0} → Db × Result Error A → Type 0
Keeps r = IsConsistent r.0

-- A row that is found is explained, seen and named.
module _ (db : Db) (v : IsConsistent db) (context : TenantContext) (a : Application) where
  changed-IsConsistent :
      (row : Application) (h : StatusHistory)
      → Explains db.history a
      → row.id ≡ a.id
      → row.tenant_id ≡ a.tenant_id
      → row.current_status ≡ h.new_status
      → h.application_id ≡ a.id
      → h.tenant_id ≡ a.tenant_id
      → h.old_status ≡ a.current_status
      → Allowed h.old_status h.new_status
      → (db' : Db) → db'.applications ≡ save row db.applications
      → db'.history ≡ h ∷ db.history
      → IsConsistent db'
  changed-IsConsistent row h own ri rt rs hi ht ho allowed db' ea eh =
      SameBoard-IsConsistent
        (record db { applications = save row db.applications; history = h ∷ db.history }) db'
        (ea, eh)
        (record {
          explained = explained_of_change db v a h own hi ht ho allowed row ri rt rs;
          trails = trails_of_change db v a h own hi ht ho allowed;
        })

update-IsConsistent :
    (context : TenantContext) (user : User) (now i : ℕ) (current new : ApplicationStatus) (db : Db)
    → IsConsistent db
    → IsConsistent (update_application_status context user now i current new db).0
unfolding update_application_status
update-IsConsistent context user now i current new db v =
    after_require Keeps db _ _ _ (λ _. v)
      λ _. after_get Keeps db _ (
        after_found Keeps db _ _ _ (λ _. v)
          λ a found.
            after_require Keeps db _ _ _ (λ _. v)
              λ same.
                after_require Keeps db _ _ _ (λ _. v)
                  λ allowed.
                    after_flush Keeps db _ _ (λ _. v) (λ _. v)
                      λ t stamped. after_put Keeps db _ _ (
                        after_pure Keeps _ _ (
                          let own = find_application-row context i db.applications found in
                          changed-IsConsistent db v context a _ _
                            (find_application-All context i (Explains db.history) db.applications
                              v.explained found)
                            refl refl refl refl (stamp-visible context a.tenant_id t stamped own.1)
                            refl
                            (subst (λ s. Allowed s (value new))
                              (sym ((eq_iff a.current_status (value current)).0 same))
                              ((is_transition_allowed_iff (value current) (value new)).0 allowed))
                            _ refl refl)))

respond-IsConsistent :
    (context : TenantContext) (user : User) (fresh now i : ℕ) (decision : Decision) (db : Db)
    → IsConsistent db
    → IsConsistent (respond_to_offer context user fresh now i decision db).0
unfolding respond_to_offer
respond-IsConsistent context user fresh now i decision before v =
    after_require Keeps before _ _ _ (λ _. v)
      λ _.
        after Keeps before Keeps _ _
          (SameBoard-IsConsistent before _ (get_or_create-SameBoard user fresh before) v)
          (λ _ _ k. k)
          λ db candidate w. after_get Keeps db _ (
            after_found Keeps db _ _ _ (λ _. w)
              λ a found.
                after_require Keeps db _ _ _ (λ _. w)
                  λ _.
                    after_require Keeps db _ _ _ (λ _. w)
                      λ allowed.
                        after_flush Keeps db _ _ (λ _. w) (λ _. w)
                          λ t stamped. after_put Keeps db _ _ (
                            after_pure Keeps _ _ (
                              changed-IsConsistent db w context a _ _
                                (find_application-All context i (Explains db.history) _
                                  (filter-All (Explains db.history) _ db.applications w.explained)
                                  found)
                                refl refl refl refl (stamp-given context a.tenant_id t stamped) refl
                                ((is_transition_allowed_iff a.current_status
                                    (value (decided decision))).0
                                  allowed)
                                _ refl refl)))

-- An upload adds an application in "Draft" under an identifier that no row has.
module _ (user : User) (upload : Upload) where
  abbrev i : ℕ
  i = upload.fresh_application

  abbrev Ready : {A : Type 0} → Db × Result Error A → Type 0
  Ready r = IsConsistent r.0 × IsFresh i r.0

  get_or_create-Ready :
      (db : Db)
      → IsConsistent db
      → IsFresh i db
      → Ready (get_or_create_candidate_profile user upload.fresh_candidate db)
  get_or_create-Ready db v w =
      let same = get_or_create-SameBoard user upload.fresh_candidate db in
      (
        SameBoard-IsConsistent db _ same v,
        record {
          no_application = subst (All (λ a. a.id ≢ i)) (sym same.0) w.no_application;
          no_history = subst (λ h. rows i h ≡ []) (sym same.1) w.no_history;
        },
      )

  new-IsConsistent :
      (db : Db) (a : Application)
      → a.id ≡ i
      → a.current_status ≡ "Draft"
      → IsConsistent db
      → IsFresh i db
      → (db' : Db) → db'.applications ≡ a ∷ db.applications
      → db'.history ≡ db.history
      → IsConsistent db'
  new-IsConsistent db a e d v w db' ea eh =
      SameBoard-IsConsistent (record db { applications = a ∷ db.applications }) db' (ea, eh)
        (record {
          explained = (
            subst (λ l. Trail a.id a.tenant_id l a.current_status)
                (sym (subst (λ j. rows j db.history ≡ []) (sym e) w.no_history)) d,
            v.explained,
          );
          trails = v.trails;
        })

  submit-IsConsistent :
      (db : Db) → IsConsistent db → IsFresh i db → IsConsistent (submit user upload db).0
  unfolding submit
  submit-IsConsistent before v w = after_get Keeps before _ (
      after_found Keeps before _ _ _ (λ _. v)
        λ job found.
          after Keeps before Ready _ _ (get_or_create-Ready before v w) (λ _ _ k. k.0)
            λ db candidate k.
              after_require Keeps db _ _ _ (λ _. k.0)
                λ _. after_get Keeps db _ (
                  after_put Keeps db _ _
                    (after_pure Keeps _ _ (new-IsConsistent db _ refl refl k.0 k.1 _ refl refl))))

  upload-IsConsistent :
      (db : Db) → IsConsistent db → IsFresh i db → IsConsistent (upload_resume user upload db).0
  unfolding upload_resume
  upload-IsConsistent db v w =
      after_require Keeps db _ _ _ (λ _. v)
        λ _.
          after_require Keeps db _ _ _ (λ _. v)
            λ _.
              after_require Keeps db _ _ _ (λ _. v)
                λ _. after_require Keeps db _ _ _ (λ _. v) λ _. submit-IsConsistent db v w

Step-IsConsistent : {db db' : Db} → Step db db' → IsConsistent db → IsConsistent db'
Step-IsConsistent {db} (moved context user now i current new) v =
    update-IsConsistent context user now i current new db v
Step-IsConsistent {db} (responded context user fresh now i decision) v =
    respond-IsConsistent context user fresh now i decision db v
Step-IsConsistent {db} (uploaded user upload fresh) v = upload-IsConsistent user upload db v fresh

-- Whatever requests are made, in any order, by users of any role and tenant: the status of every
-- application is explained by its recorded history, which starts at "Draft", is made of allowed moves
-- each from the status that the one before led to, and names the tenant of the application.
pub Reach-IsConsistent : {db : Db} → Reach db → IsConsistent db
Reach-IsConsistent (start db e f) = start-IsConsistent db e f
Reach-IsConsistent (next r s) = Step-IsConsistent s (Reach-IsConsistent r)
