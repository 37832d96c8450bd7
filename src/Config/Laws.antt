-- ===== src/Config/Laws.antt =====
-- What an update of the configuration leaves, and what a read of it answers.
use mathlib.Core.Option.{some-injective}
use masterfabric_backend.Prelude.{◌≡◌, refl, sym, ap, ◌∙◌, ◌⊎◌, inl, inr, Option, none, some}
use masterfabric_backend.Prelude.Text.{Text}
use masterfabric_backend.Errors.{Error}
use masterfabric_backend.Exec.{Result, ok, err, map_err, lift, continue, map_result_err, ◌>>=◌}
use masterfabric_backend.Exec.Inversion.{>>=-eq-ok, map_err-eq-ok, lift-eq-ok, ok-injective}
use masterfabric_backend.World.{Env, World, Act, advance, query}
use masterfabric_backend.World.Inversion.{query-eq-ok, query-world}
use masterfabric_backend.Iam.Users.Laws.{or_no_rows-eq-ok, read-eq-ok}
use masterfabric_backend.Iam.Users.{or_no_rows}
use masterfabric_backend.Config.Model.{AppConfig}
use masterfabric_backend.Config.Store.{
  parsed_config, find_config, upsert_config, get_config, update_config,
}

parsed_config-eq-ok :
    (o : Option AppConfig) {cfg : AppConfig} → parsed_config o ≡ ok cfg → o ≡ some cfg
unfolding parsed_config
parsed_config-eq-ok none h = cc h
parsed_config-eq-ok (some c) h = cc h

module _ {env : Env} where
  find_config-eq-ok :
      (w u : World env) (cfg : AppConfig)
      → find_config env w ≡ (ok cfg, u)
      → (raw : Text) × (w.app_config ≡ some raw)
        × (env.decode_config raw ≡ some cfg)
        × (advance env w ≡ u)
  unfolding find_config
  find_config-eq-ok w u cfg h =
      let (raw, w1, asked, lifted) = >>=-eq-ok _ _ w h in
      let (found, moved) =
        read-eq-ok (λ v. or_no_rows v.app_config) w (map_err-eq-ok _ _ w asked) in
      let (parsed, stay) = lift-eq-ok _ w1 lifted in
      (raw, or_no_rows-eq-ok _ found, parsed_config-eq-ok _ parsed, moved ∙ stay)

  upsert_config-eq-ok :
      (cfg : AppConfig) (w u : World env)
      → upsert_config env cfg w ≡ (ok tt, u)
      → u.app_config ≡ some (env.encode_config cfg)
  unfolding upsert_config
  upsert_config-eq-ok cfg w u h = sym (
      ap (λ (x : World env). x.app_config)
        (ok-injective (query-eq-ok _ w (map_err-eq-ok _ _ w h))).1)

-- Where decoding inverts encoding, an update that returns answers with the very configuration
-- that it was given, and every later read that returns, as long as the row stays, gives it too.
pub update_config_roundtrip :
    (env : Env) (cfg answered read : AppConfig) (w u v x : World env)
    → env.decode_config (env.encode_config cfg) ≡ some cfg
    → update_config env cfg w ≡ (ok answered, u)
    → v.app_config ≡ u.app_config
    → get_config env v ≡ (ok read, x)
    → (answered ≡ cfg) × (read ≡ cfg)
unfolding update_config get_config
update_config_roundtrip env cfg answered read w u v x inverse h same later =
    let (_, w1, written, rest) = >>=-eq-ok _ _ w h in
    let stored = upsert_config-eq-ok cfg w w1 written in
    let (raw, found, decoded, moved) = find_config-eq-ok w1 u answered rest in
    let (raw', found', decoded', _) = find_config-eq-ok v x read later in
    let kept : u.app_config ≡ some (env.encode_config cfg) =
      sym (ap (λ (y : World env). y.app_config) moved) ∙ stored in
    let e : raw ≡ env.encode_config cfg = some-injective _ _ (sym found ∙ stored) in
    let e' : raw' ≡ env.encode_config cfg = some-injective _ _ (sym found' ∙ same ∙ kept) in
    (
      some-injective _ _ (sym decoded ∙ ap env.decode_config e ∙ inverse),
      some-injective _ _ (sym decoded' ∙ ap env.decode_config e' ∙ inverse),
    )

module _ {env : Env} where
  lifted-row :
      (m : Act env Text) (g : Error → Error) {w : World env}
      → ((map_err g m >>= λ raw. lift (parsed_config (env.decode_config raw))) w).1 ≡ (m w).1
  unfolding map_err lift ◌>>=◌
  lifted-row m g {w} = of_result (m w).0 (m w).1
    where
      of_result :
          (r : Result Text) (v : World env)
          → (continue
              (map_result_err g r)
              (λ raw u. (parsed_config (env.decode_config raw), u))
              v).1
            ≡ v
      of_result (ok raw) v = refl
      of_result (err e) v = refl

  find_config-row : (w : World env) → (find_config env w).1.app_config ≡ w.app_config
  unfolding find_config
  find_config-row w =
      ap (λ (v : World env). v.app_config)
        (lifted-row (query env (λ n v. (or_no_rows v.app_config, v))) _)
      ∙ elim (query-world (λ n v. (or_no_rows v.app_config, v)) w) [
        | inl e ↦ ap (λ (v : World env). v.app_config) e
        | inr e ↦ ap (λ (v : World env). v.app_config) e
      ]

  upsert_config-row :
      (cfg : AppConfig) (w : World env)
      → ((upsert_config env cfg w).1.app_config ≡ w.app_config)
        ⊎ ((upsert_config env cfg w).1.app_config ≡ some (env.encode_config cfg))
  unfolding upsert_config map_err
  upsert_config-row cfg w =
      elim (query-world (λ n v. (ok tt, record v { app_config = some (env.encode_config cfg) }))
        w) [
          | inl e ↦ inr (ap (λ (v : World env). v.app_config) e)
          | inr e ↦ inl (ap (λ (v : World env). v.app_config) e)
        ]

  then_find-row :
      (r : Result (Unit {0})) (w : World env)
      → (continue r (λ _. find_config env) w).1.app_config ≡ w.app_config
  then_find-row (ok a) w = find_config-row w
  then_find-row (err e) w = refl

-- An update, whatever its outcome, leaves the old row or the row of the new configuration.
pub update_config_atomic :
    (env : Env) (cfg : AppConfig) (w : World env)
    → ((update_config env cfg w).1.app_config ≡ w.app_config)
      ⊎ ((update_config env cfg w).1.app_config ≡ some (env.encode_config cfg))
unfolding update_config ◌>>=◌
update_config_atomic env cfg w =
    let stay = then_find-row (upsert_config env cfg w).0 (upsert_config env cfg w).1 in
    elim (upsert_config-row cfg w) [ inl e ↦ inl (stay ∙ e) | inr e ↦ inr (stay ∙ e) ]
