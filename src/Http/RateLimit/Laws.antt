-- ===== src/Http/RateLimit/Laws.antt =====
-- How many attempts on a counter a window lets through.
use masterfabric_backend.Prelude.{
  ℕ, suc, ◌+◌, ◌*◌, ◌<◌, ◌≡◌, refl, ap, ◌∙◌, inl, inr, Bool, true, false, Option, none, some, List,
  [], ◌∷◌, ltb, leb, ◌&&◌, ◌==◌, nat_eq, list_eq, Bool-cases, ==-refl, list_beq_iff, All, arith,
  if◌then◌else◌,
}
use masterfabric_backend.Prelude.Text.{Text}
use masterfabric_backend.World.{Env}
use masterfabric_backend.Http.RateLimit.{Window, Allowance, expire_first, run_script, allowance}
use masterfabric_backend.Exec.{ok}

-- A counter with the instant at which it ends, if it has one.
abbrev pub Counter : Type 0
Counter = ℕ × Option ℕ

-- What a reader sees of an entry at an instant: nothing is a counter at zero, without an end.
abbrev pub visible : Option Counter → ℕ → Counter
visible none now = (0, none)
visible (some (n, none)) now = (n, none)
visible (some (n, some end)) now = if ltb now end then (n, some end) else (0, none)

-- The documented behaviour of INCR and PEXPIRE: an entry for each key, which INCR counts up from
-- what is visible, keeping its end, and which PEXPIRE gives an end in milliseconds; neither
-- touches another key.
pub record IsCounting (env : Env) : Type 0 where
  pub entry : env.Redis → Text → Option Counter
  pub incr_answer :
      (r : env.Redis) (k : Text) (t : ℕ) → (env.redis_incr r k t).0 ≡ suc (visible (entry r k) t).0
  pub incr_entry :
      (r : env.Redis) (k j : Text) (t : ℕ)
      → entry (env.redis_incr r k t).1 j ≡ (
          if k == j
          then some (suc (visible (entry r k) t).0, (visible (entry r k) t).1)
          else entry r j)
  pub pexpire_entry :
      (r : env.Redis) (k j : Text) (ms t : ℕ)
      → entry (env.redis_pexpire r k ms t) j
        ≡ (if k == j then some ((visible (entry r k) t).0, some (t + ms * 1000000)) else entry r j)

-- A request that has reached a limiter: its key, the limit and the window (in milliseconds) of
-- its route, the server's instant and the client's clock.
pub record Attempt : Type 0 where
  pub key : Text
  pub limit : ℕ
  pub window : ℕ
  pub at : ℕ
  pub sent : ℕ

abbrev pub one_if : Bool → ℕ
one_if true = 1
one_if false = 0

-- The attempts on a key.
unfoldable pub attempts : Text → List Attempt → ℕ
attempts k [] = 0
attempts k (q ∷ qs) = one_if (q.key == k) + attempts k qs

module _ (env : Env) where
  abbrev after : Attempt → env.Redis → Window × env.Redis
  after q r = run_script env q.key q.limit q.window q.sent q.at r

  -- What `Allow` answers to an attempt from the script's answer.
  abbrev answered : Attempt → env.Redis → Allowance
  answered q r = allowance env q.limit (ok (after q r).0)

  -- The attempts on a key that `Allow` lets through, one after another.
  unfoldable pub passes : Text → env.Redis → List Attempt → ℕ
  passes k r [] = 0
  passes k r (q ∷ qs) = one_if (q.key == k && (answered q r).allowed) + passes k (after q r).1 qs

-- The attempt, if it is on the key, has the limit and comes before the end.
abbrev pub IsWithin : Text → ℕ → ℕ → Attempt → Type 0
IsWithin k limit end q = (q.key == k) ≡ true → (q.limit ≡ limit) × (q.at < end)

lt→ltb : (a b : ℕ) → a < b → ltb a b ≡ true
lt→ltb a b h = ground arith

module _ {env : Env} (c : IsCounting env) (k : Text) where
  entry-other :
      (q : Attempt) (r : env.Redis)
      → (q.key == k) ≡ false
      → c.entry (after env q r).1 k ≡ c.entry r k
  unfolding run_script expire_first
  entry-other q r h = ground (
    arith,
    c.incr_entry r q.key k q.at,
    c.pexpire_entry (env.redis_incr r q.key q.at).1 q.key k q.window q.at,
  )

  visible-live :
      (r : env.Redis) (m end t : ℕ)
      → c.entry r k ≡ some (m, some end)
      → t < end
      → visible (c.entry r k) t ≡ (m, some end)
  visible-live r m end t h before = rw h (rw (lt→ltb t end before) refl)

  entry-incr :
      (r : env.Redis) (t n : ℕ) (d : Option ℕ)
      → visible (c.entry r k) t ≡ (n, d)
      → c.entry (env.redis_incr r k t).1 k ≡ some (suc n, d)
  entry-incr r t n d v =
      c.incr_entry r k k t ∙ rw (==-refl k) (ap (λ (x : Counter). some (suc x.0, x.1)) v)

  answer-incr :
      (r : env.Redis) (t n : ℕ) (d : Option ℕ)
      → visible (c.entry r k) t ≡ (n, d)
      → (env.redis_incr r k t).0 ≡ suc n
  answer-incr r t n d v = c.incr_answer r k t ∙ ap (λ (x : Counter). suc x.0) v

  expire-later : (n m w t : ℕ) (r : env.Redis) → n ≡ suc (suc m) → expire_first env n k w t r ≡ r
  unfolding expire_first
  expire-later n m w t r e = ground arith

  expire-first :
      (n w t : ℕ) (r : env.Redis) → n ≡ 1 → expire_first env n k w t r ≡ env.redis_pexpire r k w t
  unfolding expire_first
  expire-first n w t r e = rw e refl

  -- A live counter is counted up and keeps its end.
  live-script :
      (r : env.Redis) (l w s t m end : ℕ)
      → c.entry r k ≡ some (suc m, some end)
      → t < end
      → ((run_script env k l w s t r).0.current ≡ suc (suc m))
        × (c.entry (run_script env k l w s t r).1 k ≡ some (suc (suc m), some end))
  unfolding run_script
  live-script r l w s t m end h before =
      let v = visible-live r (suc m) end t h before in
      let current = answer-incr r t (suc m) (some end) v in
      (
        current,
        ap (λ (x : env.Redis). c.entry x k) (expire-later _ m w t (env.redis_incr r k t).1 current)
            ∙ entry-incr r t (suc m) (some end) v,
      )

  -- A counter that has ended starts again at one, with a new end.
  first-script :
      (r : env.Redis) (l w s t : ℕ)
      → visible (c.entry r k) t ≡ (0, none)
      → ((run_script env k l w s t r).0.current ≡ 1)
        × (c.entry (run_script env k l w s t r).1 k ≡ some (1, some (t + w * 1000000)))
  unfolding run_script
  first-script r l w s t v =
      let current = answer-incr r t 0 none v in
      let counted = entry-incr r t 0 none v in
      (
        current,
        ap (λ (x : env.Redis). c.entry x k) (expire-first _ w t (env.redis_incr r k t).1 current)
            ∙ c.pexpire_entry (env.redis_incr r k t).1 k k w t
            ∙ rw (==-refl k) (rw counted refl),
      )

  -- The script at an attempt, by its key.
  own-attempt :
      (q : Attempt) (r : env.Redis)
      → (q.key == k) ≡ true
      → after env q r ≡ run_script env k q.limit q.window q.sent q.at r
  own-attempt q r h =
      ap (λ (x : Text). run_script env x q.limit q.window q.sent q.at r)
        ((list_beq_iff q.key k).0 h)

  live-passes :
      (limit end m : ℕ) (r : env.Redis) (qs : List Attempt)
      → c.entry r k ≡ some (suc m, some end)
      → All (IsWithin k limit end) qs
      → suc m + passes env k r qs ≡ (
          if leb (suc m + attempts k qs) limit
          then suc m + attempts k qs
          else (if leb (suc m) limit then limit else suc m))
  unfolding passes attempts allowance
  live-passes limit end m r [] h within = ground arith
  live-passes limit end m r (q ∷ qs) h (first, within) = elim (Bool-cases (q.key == k)) [
    | inr other ↦
        let rest =
          live-passes limit end m (after env q r).1 qs (entry-other q r other ∙ h) within in
        rw other (ground (arith, rest))
    | inl own ↦
        let (same, before) = first own in
        let e = own-attempt q r own in
        let (current, kept) = live-script r q.limit q.window q.sent q.at m end h before in
        let rest =
          live-passes limit end (suc m) (after env q r).1 qs
            (ap (λ (x : Window × env.Redis). c.entry x.1 k) e ∙ kept) within in
        let shown : (after env q r).0.current ≡ suc (suc m) =
          ap (λ (x : Window × env.Redis). x.0.current) e ∙ current in
        rw own (ground (arith, rest, shown, same))
  ]

  -- Where Redis counts as documented, from a counter that has ended, `Allow` lets the attempts on
  -- a key within one window through up to the limit and no further: all of them if they are at
  -- most as many, else as many as the limit; attempts on other keys in between change nothing.
  pub passes_limited :
      (q : Attempt) (r : env.Redis) (qs : List Attempt)
      → (q.key == k) ≡ true
      → visible (c.entry r k) q.at ≡ (0, none)
      → All (IsWithin k q.limit (q.at + q.window * 1000000)) qs
      → passes env k r (q ∷ qs)
        ≡ (if leb (attempts k (q ∷ qs)) q.limit then attempts k (q ∷ qs) else q.limit)
  unfolding passes attempts allowance
  passes_limited q r qs own v within =
      let e = own-attempt q r own in
      let (current, kept) = first-script r q.limit q.window q.sent q.at v in
      let rest =
        live-passes q.limit (q.at + q.window * 1000000) 0 (after env q r).1 qs
          (ap (λ (x : Window × env.Redis). c.entry x.1 k) e ∙ kept) within in
      let shown : (after env q r).0.current ≡ 1 =
        ap (λ (x : Window × env.Redis). x.0.current) e ∙ current in
      rw own (ground (arith, rest, shown))
