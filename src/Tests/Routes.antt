-- ===== src/Tests/Routes.antt =====
-- The theorems on routes, limits, races and the configuration, applied to concrete data.
use masterfabric_backend.Prelude.{
  ℕ, ◌≡◌, ◌⊎◌, refl, true, none, some, List, [], ◌∷◌, ◌++◌, ◌==◌, nat_eq, list_eq, list_beq,
  if◌then◌else◌,
}
use masterfabric_backend.Prelude.Integers.{pos}
use masterfabric_backend.Prelude.Text.{Text, codes}
use masterfabric_backend.Errors.{plain}
use masterfabric_backend.Exec.{ok}
use masterfabric_backend.Table.{find}
use masterfabric_backend.World.{World, AccessClaims}
use masterfabric_backend.Config.Model.{AppConfig}
use masterfabric_backend.Config.Store.{
  parsed_config, find_config, upsert_config, get_config, update_config,
}
use masterfabric_backend.Config.Laws.{update_config_roundtrip, update_config_atomic}
use masterfabric_backend.Iam.Tokens.{with_hash}
use masterfabric_backend.Iam.Access.{hash_token}
use masterfabric_backend.Http.RateLimit.Laws.{IsCounting}
use masterfabric_backend.Http.RateLimit.Served.{Limited}
use masterfabric_backend.Http.Request.{Request, Web, malformed, decoded}
use masterfabric_backend.Http.Routes.{Route, serve}
use masterfabric_backend.Http.Routes.Guards.{IsTurnedAway}
use masterfabric_backend.Http.Routes.Entitlement.{
  IsPublic, IsEntitled, to_public, with_token, with_permission, serve-IsTurnedAway,
}
use masterfabric_backend.Http.Routes.Sequence.{IsStep, serve-IsStep}
use masterfabric_backend.Service.Race.{
  checking, settle, stage_action, move, System, moves, Reach, with_thread,
}
use masterfabric_backend.Service.Race.Moves.{has_rotated}
use masterfabric_backend.Service.Race.Winner.{single_winner}
use masterfabric_backend.Tests.{ab_row, ann_change, ann_login, bob, lab, program, start}

abbrev ann_claims : AccessClaims
ann_claims = record {
  user_id = 1;
  roles = "user" ∷ [];
  issued_at = 0;
  expires_at = 900;
  not_before = 0;
  issuer = "masterfabric_backend";
  subject = 1;
  id = 7;
}

-- A decoder that takes every body for one request.
abbrev site : Web lab
site = record {
  register_body = λ body. decoded bob;
  login_body = λ body. decoded ann_login;
  token_body = λ body. decoded (record { refresh_token = body });
  update_me_body = λ body. decoded (record { email = body });
  change_password_body = λ body. decoded ann_change;
  session_body = λ body. decoded (record { model_id = body; model_hash = [] });
  event_body = λ body. malformed (plain "json");
  score_body = λ body. malformed (plain "json");
  config_body = λ body. malformed (plain "json");
  email_field = λ body. body;
  refresh_token_field = λ body. body;
  parse_uuid = λ text. some 20;
  equal_fold = list_beq;
  parse_access = λ n token. if token == codes "jwt" then some ann_claims else none;
  permissions = ("user", codes "org:read" ∷ []) ∷ [];
  has_postgres = true;
}

abbrev nobody : Request
nobody = record {
  authorization = [];
  remote_addr = codes "10.0.0.1:99";
  body = codes "ab";
  id = [];
  page = [];
  limit = [];
}

abbrev as_ann : Request
as_ann = record nobody { authorization = codes "bearer jwt" }

serve-IsStep_example : IsStep site Route.refresh start (serve site Route.refresh nobody start).1
serve-IsStep_example = serve-IsStep site Route.refresh nobody start

headless : (scheme token : Text) → [] ≡ scheme ++ b' ' ∷ token → ⊥
headless [] token h = cc h
headless (c ∷ scheme) token h = cc h

me-private : (at : Route) → IsPublic at → at ≡ Route.me → ⊥
me-private Route.live h e = cc e
me-private Route.ready h e = cc e
me-private Route.get_config h e = cc e
me-private Route.register h e = cc e
me-private Route.login h e = cc e
me-private Route.refresh h e = cc e
me-private _ h e = elim h [ ]

nobody_out : IsEntitled site nobody 0 Route.me → ⊥
nobody_out (to_public p) = me-private Route.me p refl
nobody_out (with_token claims b _) = headless b.scheme b.token b.joined
nobody_out (with_permission claims b _) = headless b.scheme b.token b.joined

serve-IsTurnedAway_example : IsTurnedAway start (serve site Route.me nobody start)
serve-IsTurnedAway_example = serve-IsTurnedAway site Route.me nobody start nobody_out

abbrev lab_counting : IsCounting lab
lab_counting = record {
  entry = λ keys key. keys key;
  incr_answer = λ keys key t. refl;
  incr_entry = λ keys key k t. refl;
  pexpire_entry = λ keys key k ms t. refl;
}

abbrev knock : Text → Limited
knock key = record { key = key; limit = 2; window = 60000 }

abbrev knocks : List Limited
knocks = knock (codes "b") ∷ knock (codes "a") ∷ knock (codes "a") ∷ knock (codes "a") ∷ []

abbrev new_config : AppConfig
new_config = record {
  web_llm = record { model_id = codes "m2"; model_url = []; estimated_bytes = pos 0 };
  features = record { scoring = true; monitoring = true };
  limits = record { max_prompt_chars = pos 1; rate_per_min = pos 1 };
}

abbrev configured : World lab
configured = (update_config lab new_config start).1

configured_run : update_config lab new_config start ≡ (ok new_config, configured)
unfolding program update_config find_config upsert_config parsed_config
configured_run = refl

read_run : get_config lab configured ≡ (ok new_config, (get_config lab configured).1)
unfolding program update_config get_config find_config upsert_config parsed_config
read_run = refl

update_config_roundtrip_example : (new_config ≡ new_config) × (new_config ≡ new_config)
update_config_roundtrip_example =
    update_config_roundtrip lab new_config new_config new_config start configured configured
      (get_config lab configured).1 refl configured_run refl read_run

update_config_atomic_example :
    ((update_config lab new_config start).1.app_config ≡ start.app_config)
    ⊎ ((update_config lab new_config start).1.app_config ≡ some (lab.encode_config new_config))
update_config_atomic_example = update_config_atomic lab new_config start

abbrev ab_hash : Text
ab_hash = hash_token lab (codes "ab")

abbrev race : List ℕ → System lab ab_hash → System lab ab_hash
race [] s = s
race (i ∷ order) s = race order (record {
  world = (move lab ab_hash (s.threads i) s.world).1;
  threads = with_thread lab ab_hash s.threads i (move lab ab_hash (s.threads i) s.world).0;
})

race-Reach :
    (order : List ℕ) (s : System lab ab_hash)
    → Reach lab ab_hash start s
    → Reach lab ab_hash start (race order s)
race-Reach [] s r = r
race-Reach (i ∷ order) s r = race-Reach order _ (Reach.later r (moves i))

abbrev all_start : System lab ab_hash
all_start = record { world = start; threads = λ i. checking }

abbrev order : List ℕ
order = 0 ∷ 1 ∷ 0 ∷ 1 ∷ 0 ∷ 0 ∷ 0 ∷ []

zero_wins : has_rotated ((race order all_start).threads 0) ≡ true
unfolding program move stage_action settle has_rotated
zero_wins = refl

row_found : find (with_hash ab_hash) start.iam.tokens ≡ some ab_row
unfolding program
row_found = refl

single_winner_example : ◌≡◌ {A = ℕ} 0 0
single_winner_example =
    single_winner lab ab_hash ab_row start (race order all_start) 0 0 row_found
      (race-Reach order all_start Reach.start) zero_wins zero_wins
