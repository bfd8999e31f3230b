-- ===== src/Tests/Scans.antt =====
-- A cluster that holds one policy, which is the state of the world, and a scan of it on request.
use drop_the_mic.Base.{String, ◌≡◌, refl, ap, sym, none, some, [], ◌∷◌}
use drop_the_mic.Base.Maps.{Map, lookup}
use drop_the_mic.Api.{Json, null}
use drop_the_mic.Engine.{failed, ok}
use drop_the_mic.Controller.{Policy, Kube, Reply, found, broken, State, triggered}
use drop_the_mic.Controller.Loop.{reconcile}
use drop_the_mic.Backend.{write_json}
use drop_the_mic.Backend.Policies.{Objects, with_run_now, run_now, status_json}
use drop_the_mic.Backend.Policies.RunNow.{IsDocumented, run_now-reconcile}
use drop_the_mic.Tests.Sessions.{codec}
use drop_the_mic.Tests.Reconciling.{nightly}

abbrev io : Objects Policy Json
io = record {
  codec = codec;
  list = λ namespace w. (found (w ∷ []), w);
  get = λ namespace name w. (found w, w);
  create = λ p w. (found p, p);
  update = λ p w. (found p, p);
  delete = λ namespace name w. (none, w);
  decode_policy = λ body. failed "EOF";
  decode_spec = λ body. ok null;
  with_spec = λ s p. p;
  policy_json = λ p. null;
  list_json = λ l. null;
  time_text = λ w. ("2026-01-01T00:00:00Z", w);
}

abbrev kube : Kube Policy
kube = record {
  get = λ namespace name w. (found w, w);
  update = λ p w. (none, p);
  update_status = λ p w. (none, p);
  get_secret = λ namespace name w. (found [], w);
  start = λ p a n w. (none, w);
  trigger = λ p w. w;
  set_condition = λ c l. c ∷ l;
  now = λ w. ("today", w);
}

stored :
    (p p' : Policy) (w w' : Policy)
    → ◌≡◌ {A = Reply Policy × Policy} (found p, p) (found p', w')
    → p'.annotations ≡ p.annotations
stored p p' w w' e = ap (λ (r : Reply Policy × Policy). annotations_of r.0) (sym e)
  where
    annotations_of : Reply Policy → Map String
    annotations_of (found q) = q.annotations
    annotations_of (broken e) = []

io-IsDocumented : IsDocumented io
io-IsDocumented = record { annotated = stored; dated = λ w. refl }

abbrev asked : Policy
asked = with_run_now io "2026-01-01T00:00:00Z" nightly

-- The policy when the controller gets it: its status was written since.
abbrev written : Policy
written = record asked {
  conditions =
      record {
        kind = "Available";
        status = "True";
        reason = "ScanCompleted";
        message = "";
        last_transition_time = none;
      }
      ∷ asked.conditions;
}

abbrev running_one : State Policy
running_one = record { schedulers = ("dtm/nightly", nightly) ∷ []; effects = []; world = written }

run_now-reconcile_example :
    (run_now io "dtm" "nightly" nightly
      ≡ (write_json codec 200 (status_json io "triggered"), asked))
    × ((s : Policy)
        → lookup "dtm/nightly" running_one.schedulers ≡ some s
        → (reconcile kube "dtm" "nightly" running_one).1.effects ≡ triggered "dtm/nightly" ∷ [])
    × (lookup "dtm/nightly" running_one.schedulers ≡ none
        → (reconcile kube "dtm" "nightly" running_one).1.effects ≡ [])
run_now-reconcile_example =
    run_now-reconcile io kube nightly asked written running_one nightly nightly asked written
      io-IsDocumented refl refl refl refl refl refl
