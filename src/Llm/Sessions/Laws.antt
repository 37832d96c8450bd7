-- ===== src/Llm/Sessions/Laws.antt =====
-- Who may read a session, and what a page of its events holds.
use masterfabric_backend.Prelude.{
  ℕ, ◌-◌, ◌*◌, ◌≡◌, refl, sym, ap, ◌∙◌, true, some, List, [], ◌∷◌, length, take, drop, nat_eq, ◌==◌,
}
use masterfabric_backend.Exec.{ok}
use masterfabric_backend.Exec.Inversion.{>>=-eq-ok, map_err-eq-ok, pure-eq-ok, guard-eq-ok}
use masterfabric_backend.Table.{find, select, newest_first}
use masterfabric_backend.World.{Env, World, advance}
use masterfabric_backend.Iam.Users.{or_no_rows}
use masterfabric_backend.Iam.Users.Laws.{or_no_rows-eq-ok, read-eq-ok}
use masterfabric_backend.Llm.Model.{Session, InferenceEvent}
use masterfabric_backend.Llm.Store.{
  session_with_id, event_of_session, page_total, page_of, find_session_by_id,
  list_events_by_session,
}
use masterfabric_backend.Llm.Sessions.{ListEventsResponse, event_dtos, owned_session, list_events}

-- The session exists and belongs to the user.
pub record IsOwned (user_id session_id : ℕ) (sessions : List Session) (session : Session)
    : Type 0 where
  pub found : find (session_with_id session_id) sessions ≡ some session
  pub owner : (session.user_id == user_id) ≡ true

module _ {env : Env} where
  find_session_by_id-eq-ok :
      (id : ℕ) (w : World env) {s : Session} {u : World env}
      → find_session_by_id env id w ≡ (ok s, u)
      → (find (session_with_id id) w.llm.sessions ≡ some s) × (advance env w ≡ u)
  unfolding find_session_by_id
  find_session_by_id-eq-ok id w h =
      let (found, same) =
        read-eq-ok (λ v. or_no_rows (find (session_with_id id) v.llm.sessions)) w
          (map_err-eq-ok _ _ w h) in
      (or_no_rows-eq-ok _ found, same)

  -- The guard of every use case on a session: what it lets through, and that it only reads.
  pub owned_session-eq-ok :
      (user_id session_id : ℕ) (w : World env) {s : Session} {u : World env}
      → owned_session env user_id session_id w ≡ (ok s, u)
      → IsOwned user_id session_id w.llm.sessions s × (advance env w ≡ u)
  unfolding owned_session
  owned_session-eq-ok user_id session_id w {s} {u} h =
      let (session, w1, asked, tested) = >>=-eq-ok _ _ w h in
      let (hit, same, stay) = guard-eq-ok _ session _ w1 tested in
      let (found, moved) = find_session_by_id-eq-ok session_id w asked in
      (
        record {
          found = found ∙ ap some same;
          owner = ap (λ (x : Session). x.user_id == user_id) (sym same) ∙ hit;
        },
        moved ∙ stay,
      )

ok-same : {A : Type 0} {a b : A} → ok a ≡ ok b → a ≡ b
ok-same h = cc h

abbrev events_of : ℕ → List InferenceEvent → List InferenceEvent
events_of session_id events =
    newest_first (λ e. e.created_at) (select (event_of_session session_id) events)

-- What a listing shows.
pub record IsListing (user_id session_id page limit : ℕ) (sessions : List Session)
    (events : List InferenceEvent) (resp : ListEventsResponse) : Type 0 where
  pub session : Session
  pub owned : IsOwned user_id session_id sessions session
  pub shown :
      resp.events
      ≡ event_dtos (take limit (drop ((page - 1) * limit) (events_of session_id events)))
  pub counted : (resp.events ≡ [] → ⊥) → resp.total ≡ length (events_of session_id events)
  pub uncounted : resp.events ≡ [] → resp.total ≡ 0

page_total-counted :
    (page : List InferenceEvent) (n : ℕ) → (event_dtos page ≡ [] → ⊥) → page_total page n ≡ n
unfolding event_dtos
page_total-counted [] n h = absurd (h refl)
page_total-counted (e ∷ page) n h = refl

page_total-uncounted :
    (page : List InferenceEvent) (n : ℕ) → event_dtos page ≡ [] → page_total page n ≡ 0
unfolding event_dtos
page_total-uncounted [] n h = refl
page_total-uncounted (e ∷ page) n h = cc

module _ {env : Env} where
  list_events_by_session-eq-ok :
      (session_id limit offset : ℕ) (w : World env) {found : List InferenceEvent × ℕ}
      {u : World env}
      → list_events_by_session env session_id limit offset w ≡ (ok found, u)
      → page_of (events_of session_id w.llm.events) limit offset ≡ found
  unfolding list_events_by_session
  list_events_by_session-eq-ok session_id limit offset w h =
      ok-same
        (read-eq-ok (λ v. ok (page_of (events_of session_id v.llm.events) limit offset)) w
          (map_err-eq-ok _ _ w h)).0

-- A listing that returns is of a session that exists and belongs to the caller; it shows the
-- asked page of the events of that session, newest first; its total is the number of all of
-- them where the page has an event, and is zero where the page has none.
pub list_events-IsListing :
    (env : Env) (user_id session_id page limit : ℕ) (w u : World env) (resp : ListEventsResponse)
    → list_events env user_id session_id page limit w ≡ (ok resp, u)
    → IsListing user_id session_id page limit w.llm.sessions w.llm.events resp
unfolding list_events page_of
list_events-IsListing env user_id session_id page limit w u resp h =
    let (session, w1, asked, rest1) = >>=-eq-ok _ _ w h in
    let (found, w2, read, last) = >>=-eq-ok _ _ w1 rest1 in
    let (owned, moved) = owned_session-eq-ok user_id session_id w asked in
    let (same, _) = pure-eq-ok _ w2 last in
    let rows : List InferenceEvent = events_of session_id w.llm.events in
    let shown_rows : List InferenceEvent = take limit (drop ((page - 1) * limit) rows) in
    let here : page_of rows limit ((page - 1) * limit) ≡ found =
      ap (λ (x : World env). page_of (events_of session_id x.llm.events) limit ((page - 1) * limit))
        moved
      ∙ list_events_by_session-eq-ok session_id limit ((page - 1) * limit) w1 read in
    let shown : resp.events ≡ event_dtos shown_rows =
      ap (λ (x : ListEventsResponse). x.events) (sym same)
      ∙ ap (λ (x : List InferenceEvent × ℕ). event_dtos x.0) (sym here) in
    let total : resp.total ≡ page_total shown_rows (length rows) =
      ap (λ (x : ListEventsResponse). x.total) (sym same)
      ∙ ap (λ (x : List InferenceEvent × ℕ). x.1) (sym here) in
    record {
      session = session;
      owned = owned;
      shown = shown;
      counted = λ full. total ∙ page_total-counted shown_rows (length rows) (λ e. full (shown ∙ e));
      uncounted = λ e. total ∙ page_total-uncounted shown_rows (length rows) (sym shown ∙ e);
    }
