-- ===== src/Sessions/Rotation.antt =====
-- What the rotation of refresh tokens and the revocation of sessions guarantee.
use ats_smart_backend.Prelude.{
  ℕ, ◌+◌, ◌<◌, ◌≡◌, ◌≢◌, refl, sym, ◌∙◌, ap, true, false, Option, none, some, List, [], ◌∷◌, arith,
  ◌==◌, take, subst, ==_iff, Bool-cases, Option-cases, inl, inr,
}
use mathlib.Core.Option.{some-injective, none-ne-some}
use ats_smart_backend.Exec.{Result, ok, raised}
use ats_smart_backend.Sessions.Redis.{Store, Session, Timed, live, assign}
use ats_smart_backend.Sessions.Revocation.{sessions-without_session}
use ats_smart_backend.Sessions.Lifecycle.{
  Reason, RefreshOutcome, Turn, rotate, rotated_session, rotate_refresh, rotate_refresh_turns,
  is_in_grace, revoke_session, without_session, is_owned_by, refresh_reuse_grace_seconds, is_live,
  refresh_token_reuse, max_rotation_attempts,
}

-- The new refresh token that a request gets, if it gets one.
unfoldable pub issued : Result Reason RefreshOutcome → Option ℕ
issued (ok outcome) = outcome.new_refresh_jti
issued (raised reason) = none

module _ (refresh_lifetime_seconds : ℕ) (session_id jti user_id : ℕ) where
  -- What every outcome of one turn satisfies.
  turn_rule :
      (Q : Store × Result Reason RefreshOutcome → Type 0) (turn : Turn) (turns : List Turn)
      (store : Store)
      → ((reason : Reason) → Q (store, raised reason))
      → ((data' : Session) → Q (store, ok (record { data' = data'; new_refresh_jti = none })))
      → Q ((revoke_session turn.now session_id none store).0, raised refresh_token_reuse)
      → ((data' : Session)
          → live turn.now (store.sessions session_id) ≡ some data'
          → (data'.user_id == user_id) ≡ true
          → is_in_grace refresh_lifetime_seconds turn.now jti data' ≡ false
          → (jti == data'.refresh_jti) ≡ true
          → is_live turn.now (store.revoked_refresh jti) ≡ false
          → Q (elim turn.written [
            | some other ↦
                rotate_refresh_turns refresh_lifetime_seconds turns session_id jti user_id other
            | none ↦
                let (next, outcome) =
                  rotate refresh_lifetime_seconds turn session_id jti data' store in
                (next, ok outcome)
          ]))
      → Q (
          rotate_refresh_turns refresh_lifetime_seconds (turn ∷ turns) session_id jti user_id store)
  unfolding rotate_refresh_turns
  turn_rule Q turn turns store refused grace reuse rotates =
      elim (Option-cases (live turn.now (store.sessions session_id))) [
        | inl gone ↦ rw (gone, rotate_refresh_turns) (refused _)
        | inr (data', found) ↦
            rw (found, rotate_refresh_turns)
              (elim (Bool-cases (data'.user_id == user_id)) [
                | inr foreign ↦ rw foreign (refused _)
                | inl own ↦
                    rw own
                      (elim (Bool-cases (is_in_grace refresh_lifetime_seconds turn.now jti data')) [
                        | inl in_grace ↦ rw in_grace (grace data')
                        | inr late ↦ rw late (elim (Bool-cases (jti == data'.refresh_jti)) [
                          | inr old ↦ rw old reuse
                          | inl current ↦
                              rw current
                                (elim (Bool-cases (is_live turn.now (store.revoked_refresh jti))) [
                                  | inl listed ↦ rw listed reuse
                                  | inr clean ↦
                                      rw clean (rotates data' found own late current clean)
                                ])
                        ])
                      ])
              ])
      ]

  live-value :
      {A : Type 0} (now : ℕ) (t : Timed A) (a : A) → live now (some t) ≡ some a → t.value ≡ a
  unfolding live
  live-value now t a h = ground arith

  -- The session that a rotation leaves.
  sessions-rotate :
      (turn : Turn) (jti : ℕ) (data' : Session) (store : Store)
      → (rotate refresh_lifetime_seconds turn session_id jti data' store).0.sessions session_id
        ≡ some (record {
          value = rotated_session refresh_lifetime_seconds turn jti data';
          until = turn.now + refresh_lifetime_seconds;
        })
  unfolding rotate assign
  sessions-rotate turn jti data' store = ground arith

  -- A token that is not the session's current one buys no new one.
  issued-old :
      (turns : List Turn) (store : Store) (key : Timed Session)
      → store.sessions session_id ≡ some key
      → key.value.refresh_jti ≢ jti
      → issued (rotate_refresh_turns refresh_lifetime_seconds turns session_id jti user_id store).1
        ≡ none
  unfolding issued rotate_refresh_turns
  issued-old [] store key h ne = refl
  issued-old (turn ∷ turns) store key h ne =
      turn_rule (λ p. issued p.1 ≡ none) turn turns store (λ reason. refl) (λ data'. refl) refl
        (λ data' found own late current clean. absurd (
          ne (
            ap (λ d. d.refresh_jti)
              (live-value turn.now key data' (sym (ap (live turn.now) h) ∙ found))
            ∙ sym ((==_iff jti data'.refresh_jti).0 current))))

  issued-rotated :
      (turns turns2 : List Turn) (store : Store) (n : ℕ)
      → n ≢ jti
      → (let (next, answer) =
            rotate_refresh_turns refresh_lifetime_seconds turns session_id jti user_id store in
          issued answer ≡ some n
          → issued
              (rotate_refresh_turns refresh_lifetime_seconds turns2 session_id jti user_id next).1
            ≡ none)
  unfolding issued rotate_refresh_turns
  issued-rotated [] turns2 store n ne = λ e. absurd (none-ne-some _ e)
  issued-rotated (turn ∷ turns) turns2 store n ne =
      turn_rule
        (λ p.
          issued p.1 ≡ some n
          → issued
              (rotate_refresh_turns refresh_lifetime_seconds turns2 session_id jti user_id p.0).1
            ≡ none)
        turn turns store (λ reason e. absurd (none-ne-some _ e))
        (λ data' e. absurd (none-ne-some _ e)) (λ e. absurd (none-ne-some _ e))
        (λ data' found own late current clean. elim (Option-cases turn.written) [
          | inl alone ↦ rw alone (λ e.
              issued-old turns2 _ _ (sessions-rotate turn jti data' store)
                (λ same. ne (sym (some-injective _ _ e) ∙ same)))
          | inr (other, raced) ↦ rw raced (issued-rotated turns turns2 other n ne)
        ])

  replayed :
      (turn : Turn) (turns : List Turn) (store : Store) (data' : Session)
      → live turn.now (store.sessions session_id) ≡ some data'
      → (data'.user_id == user_id) ≡ true
      → is_in_grace refresh_lifetime_seconds turn.now jti data' ≡ false
      → (jti == data'.refresh_jti) ≡ false
      → rotate_refresh_turns refresh_lifetime_seconds (turn ∷ turns) session_id jti user_id store
        ≡ ((without_session turn.now session_id data' store), raised refresh_token_reuse)
  unfolding rotate_refresh_turns revoke_session is_owned_by
  replayed turn turns store data' found own late old =
      rw (found, rotate_refresh_turns) (rw own (rw late (rw old (rw (found, revoke_session) refl))))

  -- The session after a replay of `jti`.
  Replayed : Store → Turn → List Turn → Type 0
  Replayed next turn turns =
      let (last, answer) =
        rotate_refresh_turns refresh_lifetime_seconds (turn ∷ turns) session_id jti user_id next in
      (answer ≡ raised refresh_token_reuse) × (last.sessions session_id ≡ none)

  rotate-Replayed :
      (turn later : Turn) (turns : List Turn) (data' : Session) (store : Store)
      → turn.new_jti ≢ jti
      → (data'.user_id == user_id) ≡ true
      → turn.now + refresh_reuse_grace_seconds < later.now
      → later.now < turn.now + refresh_lifetime_seconds
      → Replayed (rotate refresh_lifetime_seconds turn session_id jti data' store).0 later turns
  unfolding Replayed rotated_session is_in_grace live
  rotate-Replayed turn later turns data' store ne own late alive =
      subst
        (λ (p : Store × Result Reason RefreshOutcome).
          (p.1 ≡ raised refresh_token_reuse) × (p.0.sessions session_id ≡ none))
        (sym (
          replayed later turns _ (rotated_session refresh_lifetime_seconds turn jti data')
            (ap (live later.now) (sessions-rotate turn jti data' store) ∙ still_live) own in_time
            other))
        (refl, sessions-without_session session_id _ _ _)
    where
      still_live :
          live later.now (
            some (record {
              value = rotated_session refresh_lifetime_seconds turn jti data';
              until = turn.now + refresh_lifetime_seconds;
            }))
          ≡ some (rotated_session refresh_lifetime_seconds turn jti data')
      still_live = ground arith

      in_time :
          is_in_grace refresh_lifetime_seconds later.now jti
            (rotated_session refresh_lifetime_seconds turn jti data')
          ≡ false
      in_time = ground arith

      other : (jti == turn.new_jti) ≡ false
      other = ground arith

  replay :
      (turn later : Turn) (turns turns2 : List Turn) (store : Store) (n : ℕ)
      → turn.written ≡ none
      → turn.new_jti ≢ jti
      → turn.now + refresh_reuse_grace_seconds < later.now
      → later.now < turn.now + refresh_lifetime_seconds
      → (let (next, answer) =
            rotate_refresh_turns refresh_lifetime_seconds
              (turn ∷ turns)
              session_id
              jti
              user_id
              store in
          issued answer ≡ some n → Replayed next later turns2)
  unfolding issued
  replay turn later turns turns2 store n alone ne late alive =
      turn_rule (λ p. issued p.1 ≡ some n → Replayed p.0 later turns2) turn turns store
        (λ reason e. absurd (none-ne-some _ e)) (λ data' e. absurd (none-ne-some _ e))
        (λ e. absurd (none-ne-some _ e))
        (λ data' found own grace current clean.
          rw alone (λ e. rotate-Replayed turn later turns2 data' store ne own late alive))

  -- A refresh token buys one new refresh token at most: after a request that got a new one for a jti
  -- (another jti, which fresh uuids are), no later request with the old jti gets one, whatever turns and
  -- races either request meets.
  pub rotate_refresh-single_use :
      (turns turns2 : List Turn) (store : Store) (n : ℕ)
      → n ≢ jti
      → issued (rotate_refresh refresh_lifetime_seconds turns session_id jti user_id store).1
        ≡ some n
      → issued
          (rotate_refresh refresh_lifetime_seconds turns2 session_id jti user_id
            (rotate_refresh refresh_lifetime_seconds turns session_id jti user_id store).0).1
        ≡ none
  unfolding rotate_refresh
  rotate_refresh-single_use turns turns2 store n ne =
      issued-rotated (take max_rotation_attempts turns) (take max_rotation_attempts turns2) store n
        ne

  -- A replayed refresh token ends the session: after a first-attempt rotation of a jti, a request with the
  -- same jti that comes after the ten seconds of grace, while the session lives, is refused as a reuse,
  -- and the session is gone from the store.
  pub rotate_refresh-replay :
      (turn later : Turn) (turns turns2 : List Turn) (store : Store) (n : ℕ)
      → turn.written ≡ none
      → turn.new_jti ≢ jti
      → turn.now + refresh_reuse_grace_seconds < later.now
      → later.now < turn.now + refresh_lifetime_seconds
      → issued
          (rotate_refresh refresh_lifetime_seconds (turn ∷ turns) session_id jti user_id store).1
        ≡ some n
      → (let (next, answer) =
            rotate_refresh refresh_lifetime_seconds (turn ∷ turns) session_id jti user_id store in
          let (last, refused) =
            rotate_refresh refresh_lifetime_seconds (later ∷ turns2) session_id jti user_id next in
          (refused ≡ raised refresh_token_reuse) × (last.sessions session_id ≡ none))
  unfolding rotate_refresh Replayed
  rotate_refresh-replay turn later turns turns2 store n =
      replay turn later (take 2 turns) (take 2 turns2) store n
