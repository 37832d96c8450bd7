-- ===== src/Tests/Inference.antt =====
-- The theorems on inference sessions, events and scores, applied to concrete data.
use masterfabric_backend.Prelude.{ℕ, ◌≡◌, refl, true, [], nat_eq, list_eq}
use masterfabric_backend.Exec.{ok}
use masterfabric_backend.Llm.Sessions.{ListEventsResponse, list_events}
use masterfabric_backend.Llm.Sessions.Laws.{IsListing, list_events-IsListing}
use masterfabric_backend.Llm.Recording.{RecordScoreRequest, record_score}
use masterfabric_backend.Llm.Recording.Laws.{IsScored, record_score-IsScored}
use masterfabric_backend.Tests.{lab, program, start}

-- The second page of one event: no row, and no count.
abbrev past_end : ListEventsResponse
past_end = record { events = []; page = 2; limit = 10; total = 0 }

past_end_run : list_events lab 1 20 2 10 start ≡ (ok past_end, (list_events lab 1 20 2 10 start).1)
unfolding program
past_end_run = refl

list_events-IsListing_example : IsListing 1 20 2 10 start.llm.sessions start.llm.events past_end
list_events-IsListing_example =
    list_events-IsListing lab 1 20 2 10 start (list_events lab 1 20 2 10 start).1 past_end
      past_end_run

abbrev flagged : RecordScoreRequest ℕ
flagged = record {
  event_id = 30;
  correctness = 9;
  latency_score = 9;
  safety_flag = true;
  cost_score = 9;
  user_signal = [];
  composite = 9;
}

flagged_run : record_score lab 1 20 flagged start ≡ (ok tt, (record_score lab 1 20 flagged start).1)
unfolding program
flagged_run = refl

record_score-IsScored_example :
    IsScored lab 1 20 flagged start.llm (record_score lab 1 20 flagged start).1.llm
record_score-IsScored_example =
    record_score-IsScored lab 1 20 flagged start (record_score lab 1 20 flagged start).1 flagged_run
