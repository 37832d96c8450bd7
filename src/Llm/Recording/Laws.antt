-- ===== src/Llm/Recording/Laws.antt =====
-- What a recorded score is.
use masterfabric_backend.Prelude.{
  ℕ, ◌≡◌, refl, sym, ap, ◌∙◌, inl, inr, true, false, ◌||◌, some, [], ◌∷◌, ◌++◌, any, Bool-cases,
  arith, nat_eq, ◌==◌,
}
use masterfabric_backend.Exec.{ok}
use masterfabric_backend.Exec.Inversion.{
  >>=-eq-ok, map_err-eq-ok, guard-eq-ok, ok-injective, err-ne-ok,
}
use masterfabric_backend.Table.{find}
use masterfabric_backend.World.{Env, World, advance}
use masterfabric_backend.World.Inversion.{query-eq-ok, call-eq-ok}
use masterfabric_backend.World.Keeps.{Keeps, Property}
use masterfabric_backend.Reads.{Keeps-frame, Keeps-llm, read_rules}
use masterfabric_backend.Iam.Users.{or_no_rows}
use masterfabric_backend.Iam.Users.Laws.{or_no_rows-eq-ok, read-eq-ok}
use masterfabric_backend.Llm.Model.{Session, InferenceEvent, DecisionScore, Tables, Metric}
use masterfabric_backend.Llm.Store.{
  event_with_id, score_of_event, score_with_id, find_event_by_id, insert_score, create_score,
}
use masterfabric_backend.Llm.Sessions.Laws.{IsOwned, owned_session-eq-ok}
use masterfabric_backend.Llm.Recording.{
  RecordScoreRequest, count, event_in_session, enforced_composite, score_row, announce_score,
  record_score,
}

-- What a score that was recorded has been checked against, and the row that it wrote.
pub record IsScored (env : Env) (user_id session_id : ℕ) (req : RecordScoreRequest env.Float)
    (before after : Tables env.Float) : Type 0 where
  pub session : Session
  pub event : InferenceEvent
  pub score : DecisionScore env.Float
  pub owned : IsOwned user_id session_id before.sessions session
  pub found : find (event_with_id req.event_id) before.events ≡ some event
  pub inside : (event.session_id == session_id) ≡ true
  pub unscored : any (score_of_event req.event_id) before.scores ≡ false
  pub scored : score.event_id ≡ req.event_id
  pub flagged : score.safety_flag ≡ req.safety_flag
  pub blocked : req.safety_flag ≡ true → score.composite ≡ env.zero_float
  pub unblocked : req.safety_flag ≡ false → score.composite ≡ req.composite
  pub written : after ≡ record before { scores = before.scores ++ score ∷ [] }

module _ {env : Env} where
  abbrev llm_of : World env → Tables env.Float
  llm_of w = w.llm

  find_event_by_id-eq-ok :
      (id : ℕ) (w : World env) {e : InferenceEvent} {u : World env}
      → find_event_by_id env id w ≡ (ok e, u)
      → (find (event_with_id id) w.llm.events ≡ some e) × (advance env w ≡ u)
  unfolding find_event_by_id
  find_event_by_id-eq-ok id w h =
      let (found, same) =
        read-eq-ok (λ v. or_no_rows (find (event_with_id id) v.llm.events)) w
          (map_err-eq-ok _ _ w h) in
      (or_no_rows-eq-ok _ found, same)

  event_in_session-eq-ok :
      (session_id event_id : ℕ) (w : World env) {e : InferenceEvent} {u : World env}
      → event_in_session env session_id event_id w ≡ (ok e, u)
      → (find (event_with_id event_id) w.llm.events ≡ some e)
        × ((e.session_id == session_id) ≡ true)
        × (advance env w ≡ u)
  unfolding event_in_session
  event_in_session-eq-ok session_id event_id w {e} {u} h =
      let (event, w1, asked, tested) = >>=-eq-ok _ _ w h in
      let (hit, same, stay) = guard-eq-ok _ event _ w1 tested in
      let (found, moved) = find_event_by_id-eq-ok event_id w (map_err-eq-ok _ _ w asked) in
      (
        found ∙ ap some same,
        ap (λ (x : InferenceEvent). x.session_id == session_id) (sym same) ∙ hit,
        moved ∙ stay,
      )

  insert_score-eq-ok :
      (s : DecisionScore env.Float) (n : ℕ) (w u : World env)
      → insert_score env s n w ≡ (ok tt, u)
      → (any (score_of_event s.event_id) w.llm.scores ≡ false)
        × (u.llm ≡ record w.llm { scores = w.llm.scores ++ s ∷ [] })
  unfolding insert_score
  insert_score-eq-ok s n w u h =
      elim (Bool-cases
        (any (score_of_event s.event_id) w.llm.scores || any (score_with_id s.id) w.llm.scores)) [
          | inl e ↦ absurd (err-ne-ok (rw e at h))
          | inr e ↦ elim (Bool-cases (any (event_with_id s.event_id) w.llm.events)) [
            | inl f ↦ (ground arith, sym (ap llm_of (ok-injective (rw f at (rw e at h))).1))
            | inr f ↦ absurd (err-ne-ok (rw f at (rw e at h)))
          ]
        ]

  create_score-eq-ok :
      (s : DecisionScore env.Float) (w u : World env)
      → create_score env s w ≡ (ok tt, u)
      → (any (score_of_event s.event_id) w.llm.scores ≡ false)
        × (u.llm ≡ record w.llm { scores = w.llm.scores ++ s ∷ [] })
  unfolding create_score
  create_score-eq-ok s w u h =
      insert_score-eq-ok s w.step (advance env w) u (query-eq-ok _ w (map_err-eq-ok _ _ w h))

module _ {env : Env} {P : Property env} where
  pub count-Keeps : (m : Metric env.Float) → Keeps env P (count env m)
  unfolding count
  count-Keeps m = record { at = λ w h. h }

  pub announce_score-Keeps :
      (s : Session) (session_id id : ℕ) (req : RecordScoreRequest env.Float)
      → Keeps env P (announce_score env s session_id id req)
  unfolding announce_score
  announce_score-Keeps s session_id id req = search (read_rules, count-Keeps)

module _ (env : Env) (req : RecordScoreRequest env.Float) where
  composite_blocked : req.safety_flag ≡ true → enforced_composite env req ≡ env.zero_float
  unfolding enforced_composite
  composite_blocked h = rw h refl

  composite_unblocked : req.safety_flag ≡ false → enforced_composite env req ≡ req.composite
  unfolding enforced_composite
  composite_unblocked h = rw h refl

abbrev with_score : {F : Type 0} → DecisionScore F → Tables F → Tables F
with_score score llm = record llm { scores = llm.scores ++ score ∷ [] }

-- A score that is recorded is for an event that lies in the given session, which belongs to the
-- caller, and that had no score before; its safety flag is the request's, its composite is zero
-- where the flag is set and the request's where it is not; it is appended, and no other row of
-- the inference tables changes.
pub record_score-IsScored :
    (env : Env) (user_id session_id : ℕ) (req : RecordScoreRequest env.Float) (w u : World env)
    → record_score env user_id session_id req w ≡ (ok tt, u)
    → IsScored env user_id session_id req w.llm u.llm
unfolding record_score score_row
record_score-IsScored env user_id session_id req w u h =
    let (session, w1, asked, rest1) = >>=-eq-ok _ _ w h in
    let (event, w2, tested, rest2) = >>=-eq-ok _ _ w1 rest1 in
    let (id, w3, named, rest3) = >>=-eq-ok _ _ w2 rest2 in
    let (now, w4, timed, rest4) = >>=-eq-ok _ _ w3 rest3 in
    let (_, w5, created, told) = >>=-eq-ok _ _ w4 rest4 in
    let (owned, moved) = owned_session-eq-ok user_id session_id w asked in
    let (found, inside, stay) = event_in_session-eq-ok session_id req.event_id w1 tested in
    let score : DecisionScore env.Float = score_row env id req now in
    let (unscored, written) = create_score-eq-ok score w4 w5 created in
    let before1 : w1.llm ≡ w.llm = sym (ap llm_of moved) in
    let before : w4.llm ≡ w.llm =
      sym (ap llm_of (call-eq-ok env.now w3 timed).1)
      ∙ sym (ap llm_of (call-eq-ok env.fresh w2 named).1)
      ∙ sym (ap llm_of stay)
      ∙ before1 in
    let after : u.llm ≡ w5.llm =
      Keeps-llm (announce_score env session session_id id req) w5 u told (
        Keeps-frame (announce_score env session session_id id req) w5
          (announce_score-Keeps session session_id id req)) in
    record {
      session = session;
      event = event;
      score = score;
      owned = owned;
      found =
          ap (λ (x : Tables env.Float). find (event_with_id req.event_id) x.events) (sym before1)
          ∙ found;
      inside = inside;
      unscored =
          ap (λ (x : Tables env.Float). any (score_of_event req.event_id) x.scores) (sym before)
          ∙ unscored;
      scored = refl;
      flagged = refl;
      blocked = composite_blocked env req;
      unblocked = composite_unblocked env req;
      written = after ∙ written ∙ ap (with_score score) before;
    }
