-- ===== src/Bus.antt =====
-- `inProcessBus` of internal/shared/events/bus.go. `Publish` starts a goroutine for each handler
-- of the topic and waits for all of them. The order in which the goroutines end is a schedule, an
-- argument; the n-th to end has what its handler returns then, so that a handler's answer may
-- depend on the others. A handler is a parameter.
pub mod Laws
pub mod Ending
use masterfabric_backend.Prelude.{
  ℕ, zero, suc, String, Option, none, some, List, [], ◌∷◌, ◌++◌, ◌==◌, string_eq, if◌then◌else◌,
}
use masterfabric_backend.Exec.{Result, ok, err}
use masterfabric_backend.World.{Event}

-- A goroutine of `Publish`: its handler, and its element of `errs` once it has returned.
pub record Goroutine (Handler : Type 0) : Type 0 where
  pub handler : Handler
  pub outcome : Option (Result (Unit {0}))

-- The loop over `errs`.
unfoldable pub first_error : List (Result (Unit {0})) → Result (Unit {0})
first_error [] = ok tt
first_error (r ∷ errs) = let later = first_error errs in elim r [ ok u ↦ later | err e ↦ err e ]

abbrev pub cons_if :
    Option (Result (Unit {0}))
    → Option (List (Result (Unit {0})))
    → Option (List (Result (Unit {0})))
cons_if none errs = none
cons_if (some r) none = none
cons_if (some r) (some errs) = some (r ∷ errs)

-- A goroutine returns once.
abbrev pub outcome_after : Option (Result (Unit {0})) → Result (Unit {0}) → Result (Unit {0})
outcome_after none r = r
outcome_after (some old) r = old

module _ {F Handler : Type 0} (handled : Handler → Event F → ℕ → Result (Unit {0})) where
  -- `map[string][]Handler`.
  abbrev pub Bus : Type 0
  Bus = List (String × List Handler)

  -- `b.handlers[topic]`: nil, an empty list, for a topic that is not there.
  unfoldable pub handlers_of : Bus → String → List Handler
  handlers_of [] topic = []
  handlers_of ((name, hs) ∷ bus) topic =
      let later = handlers_of bus topic in if name == topic then hs else later

  unfoldable pub subscribe : Bus → String → Handler → Bus
  subscribe [] topic h = (topic, h ∷ []) ∷ []
  subscribe ((name, hs) ∷ bus) topic h =
      let rest = subscribe bus topic h in
      if name == topic then (name, hs ++ h ∷ []) ∷ bus else (name, hs) ∷ rest

  -- The `go` statements: every handler has a goroutine, and none has returned.
  unfoldable pub started : List Handler → List (Goroutine Handler)
  started [] = []
  started (h ∷ hs) = record { handler = h; outcome = none } ∷ started hs

  -- `errs[idx] = fn(ctx, event)` and `wg.Done()`, as the n-th of all.
  unfoldable pub end_one : Event F → ℕ → ℕ → List (Goroutine Handler) → List (Goroutine Handler)
  end_one event n idx [] = []
  end_one event n zero (g ∷ gs) =
      record g { outcome = some (outcome_after g.outcome (handled g.handler event n)) } ∷ gs
  end_one event n (suc idx) (g ∷ gs) = g ∷ end_one event n idx gs

  unfoldable pub end_all :
      Event F → ℕ → List ℕ → List (Goroutine Handler) → List (Goroutine Handler)
  end_all event n [] gs = gs
  end_all event n (idx ∷ schedule) gs = end_all event (suc n) schedule (end_one event n idx gs)

  -- `wg.Wait()`: `errs`, once every goroutine has returned.
  unfoldable pub wait : List (Goroutine Handler) → Option (List (Result (Unit {0})))
  wait [] = some []
  wait (g ∷ gs) = cons_if g.outcome (wait gs)

  -- `Publish`, under a schedule: none if it still waits when the schedule is over.
  unfoldable pub publish : Bus → Event F → List ℕ → Option (Result (Unit {0}))
  publish bus event schedule =
      elim (wait (end_all event 0 schedule (started (handlers_of bus event.topic)))) [
        | none ↦ none
        | some errs ↦ some (first_error errs)
      ]
