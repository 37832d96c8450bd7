-- ===== src/Service/Race/Winner.antt =====
-- However the moves of many requests with one token fall between one another, one request at
-- most comes past the revocation of its row.
use masterfabric_backend.Prelude.{
  ℕ, ◌≡◌, refl, sym, ap, ◌∙◌, ◌⊎◌, inl, inr, true, Bool-cases, some, any, ◌==◌, nat_eq, nat_beq_iff,
}
use masterfabric_backend.Prelude.Text.{Text}
use masterfabric_backend.Table.{find}
use masterfabric_backend.World.{Env, World}
use masterfabric_backend.Iam.Model.{RefreshToken}
use masterfabric_backend.Iam.Tokens.{with_hash, with_token_id, is_live}
use masterfabric_backend.Service.Keeps.{perform-Keeps}
use masterfabric_backend.Service.Race.{
  Stage, move, System, Step, moves, serves, Reach, start, later, with_thread,
}
use masterfabric_backend.Service.Race.Rows.{
  Finds, IsSpent, IsSpent-KeptByWrites, Finds-KeptByWrites,
}
use masterfabric_backend.Service.Race.Moves.{has_rotated, IsOfRow, IsMove, move-keeps, move-IsMove}

-- What holds however the requests have moved.
record IsSafe (env : Env) (hash : Text) (id : ℕ) (s : System env hash) : Type 0 where
  finds : Finds hash id s.world.iam.tokens
  own : (i : ℕ) → IsOfRow id (s.threads i)
  spent : (i : ℕ) → has_rotated (s.threads i) ≡ true → IsSpent id s.world.iam.tokens
  single : (i j : ℕ) → has_rotated (s.threads i) ≡ true → has_rotated (s.threads j) ≡ true → i ≡ j

module _ (env : Env) (hash : Text) (id : ℕ) (s : System env hash) (inv : IsSafe env hash id s) where
  module _ (i : ℕ) where
    abbrev next : Stage
    next = (move env hash (s.threads i) s.world).0

    abbrev world_after : World env
    world_after = (move env hash (s.threads i) s.world).1

    abbrev threads_after : ℕ → Stage
    threads_after = with_thread env hash s.threads i next

    moved : IsMove env hash id (s.threads i) next s.world.iam.tokens world_after.iam.tokens
    moved = move-IsMove env hash id s.world inv.finds (s.threads i) (inv.own i)

    -- A request past the revocation was so before, or it is the one that moves and the row was live.
    origin :
        (j : ℕ)
        → has_rotated (threads_after j) ≡ true
        → (has_rotated (s.threads j) ≡ true)
          ⊎ ((j ≡ i)
              × (any (is_live (with_token_id id)) s.world.iam.tokens ≡ true)
              × IsSpent id world_after.iam.tokens)
    origin j h = elim (Bool-cases (j == i)) [
      | inr other ↦ inl (rw other at h)
      | inl same ↦
          let e : j ≡ i = (nat_beq_iff j i).0 same in
          elim (moved.rotated (rw same at h)) [
            | inl before ↦ inl (ap (λ (x : ℕ). has_rotated (s.threads x)) e ∙ before)
            | inr (live, after) ↦ inr (e, live, after)
          ]
    ]

    live_alone :
        (j : ℕ)
        → has_rotated (s.threads j) ≡ true
        → any (is_live (with_token_id id)) s.world.iam.tokens ≡ true
        → ⊥
    live_alone j h live = cc ((inv.spent j h).dead, live)

    moves-IsSafe : IsSafe env hash id (record { world = world_after; threads = threads_after })
    moves-IsSafe = record {
      finds =
          move-keeps env hash (Finds hash id) (Finds-KeptByWrites env hash id) (s.threads i) s.world
            inv.finds;
      own = λ j. elim (Bool-cases (j == i)) [
        | inr other ↦ rw other (inv.own j)
        | inl same ↦ rw same moved.of_row
      ];
      spent = λ j h. elim (origin j h) [
        | inl before ↦
            move-keeps env hash (IsSpent id) (IsSpent-KeptByWrites env id) (s.threads i) s.world
              (inv.spent j before)
        | inr (_, _, after) ↦ after
      ];
      single = λ j k hj hk. elim (origin j hj) [
        | inl before ↦ elim (origin k hk) [
          | inl before' ↦ inv.single j k before before'
          | inr (_, live, _) ↦ absurd (live_alone j before live)
        ]
        | inr (e, live, _) ↦ elim (origin k hk) [
          | inl before' ↦ absurd (live_alone k before' live)
          | inr (e', _, _) ↦ e ∙ sym e'
        ]
      ];
    }

  Step-IsSafe : (t : System env hash) → Step env hash s t → IsSafe env hash id t
  Step-IsSafe _ (moves i) = moves-IsSafe i
  Step-IsSafe _ (serves op) = record {
    finds = (perform-Keeps (Finds-KeptByWrites env hash id) op).at s.world inv.finds;
    own = inv.own;
    spent = λ j h. (perform-Keeps (IsSpent-KeptByWrites env id) op).at s.world (inv.spent j h);
    single = inv.single;
  }

Reach-IsSafe :
    (env : Env) (hash : Text) (t : RefreshToken) (w : World env) (s : System env hash)
    → find (with_hash hash) w.iam.tokens ≡ some t
    → Reach env hash w s
    → IsSafe env hash t.id s
unfolding IsOfRow has_rotated
Reach-IsSafe env hash t w _ found start = record {
  finds = (t, found, refl);
  own = λ i. tt;
  spent = λ i h. cc h;
  single = λ i j h. cc h;
}
Reach-IsSafe env hash t w s found (later {s = before} r step) =
    Step-IsSafe env hash t.id before (Reach-IsSafe env hash t w before found r) s step

-- Where the hash of a token finds a row, and requests with the token start and move in any order,
-- each statement of one between those of the others and among other operations of the service,
-- with whatever faults: two that have come past the revocation, as every one that returns has,
-- are the same request.
pub single_winner :
    (env : Env) (hash : Text) (t : RefreshToken) (w : World env) (s : System env hash) (i j : ℕ)
    → find (with_hash hash) w.iam.tokens ≡ some t
    → Reach env hash w s
    → has_rotated (s.threads i) ≡ true
    → has_rotated (s.threads j) ≡ true
    → i ≡ j
single_winner env hash t w s i j found r = (Reach-IsSafe env hash t w s found r).single i j
