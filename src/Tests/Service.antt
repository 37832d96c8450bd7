-- ===== src/Tests/Service.antt =====
-- The theorems on whole sequences of requests, applied to concrete data.
use masterfabric_backend.Prelude.{◌≡◌, ◌≢◌, refl, some, ◌==◌, nat_eq, list_eq, arith}
use masterfabric_backend.Prelude.Text.{codes}
use masterfabric_backend.Exec.{ok}
use masterfabric_backend.Table.{find}
use masterfabric_backend.Iam.Model.{RefreshToken}
use masterfabric_backend.Iam.Access.{hash_token}
use masterfabric_backend.Iam.Refresh.{refresh}
use masterfabric_backend.Iam.Account.{change_password}
use masterfabric_backend.Iam.Logout.{logout}
use masterfabric_backend.Service.SignedOut.{logout_ends_session, change_password_ends_sessions}
use masterfabric_backend.Service.{run}
use masterfabric_backend.Service.SingleUse.{refresh_once}
use masterfabric_backend.Service.WellFormed.{WellFormed, run-WellFormed}
use masterfabric_backend.Tests.{
  ab_row, ann_change, change_run, lab, program, refresh_run, refreshed, requests, start,
}

refresh_once_example :
    refresh lab (codes "ab") (run lab requests (refresh lab (codes "ab") start).1)
    ≢ (ok refreshed, start)
refresh_once_example =
    refresh_once lab (codes "ab") start (refresh lab (codes "ab") start).1
      (run lab requests (refresh lab (codes "ab") start).1) start refreshed refreshed requests
      refresh_run refl

pub start-WellFormed : WellFormed lab start.iam start.llm
start-WellFormed = record {
  user_ids = (refl, tt);
  emails = (refl, tt);
  token_ids = (refl, tt);
  token_users = (refl, tt);
  assignments = ((refl, refl), tt);
  assigned_once = (refl, tt);
  role_ids = (refl, tt);
  role_names = (refl, tt);
  session_ids = (refl, tt);
  session_users = (refl, tt);
  event_ids = (refl, tt);
  events = (
    record {
      tokens_in = omega arith;
      tokens_out = omega arith;
      latency = omega arith;
      session = refl;
      user = refl;
    },
    tt,
  );
  score_ids = tt;
  one_score = tt;
  score_events = tt;
}

run-WellFormed_example : WellFormed lab (run lab requests start).iam (run lab requests start).llm
run-WellFormed_example = run-WellFormed lab requests start start-WellFormed

ab_found :
    find (λ (t : RefreshToken). t.token_hash == hash_token lab (codes "ab")) start.iam.tokens
    ≡ some ab_row
unfolding program
ab_found = refl

logout_ends_session_example :
    refresh lab (codes "ab") (run lab requests (logout lab (codes "ab") start).1)
    ≢ (ok refreshed, start)
logout_ends_session_example =
    logout_ends_session lab (codes "ab") ab_row start
      (run lab requests (logout lab (codes "ab") start).1) start refreshed requests refl refl
      ab_found refl

change_password_ends_sessions_example :
    refresh lab (codes "ab") (run lab requests (change_password lab 1 ann_change start).1)
    ≢ (ok refreshed, start)
change_password_ends_sessions_example =
    change_password_ends_sessions lab (codes "ab") ab_row 1 ann_change start
      (change_password lab 1 ann_change start).1
      (run lab requests (change_password lab 1 ann_change start).1) start refreshed requests
      change_run ab_found refl refl
