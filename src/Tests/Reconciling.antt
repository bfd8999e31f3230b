-- ===== src/Tests/Reconciling.antt =====
-- A policy that the API gives twice, and that is gone from then on; the world is the number of requests.
use drop_the_mic.Base.{ℕ, suc, ◌≡◌, String, true, false, none, List, [], ◌∷◌, if◌then◌else◌, ltb}
use drop_the_mic.Base.Maps.{lookup}
use drop_the_mic.Controller.{Kube, Error, Policy, found, broken, key_of}
use drop_the_mic.Controller.Loop.{reconcile}
use drop_the_mic.Controller.Running.{running, one_if, after_calls, at_start, running-after_calls}

abbrev pub nightly : Policy
nightly = record {
  namespace = "dtm";
  name = "nightly";
  is_deleted = false;
  finalizers = "dtm.io/finalizer" ∷ [];
  annotations = [];
  llm = record { provider = "claude"; model = "m"; secret_ref = record { name = "llm"; key = "" } };
  notification = none;
  summary = none;
  conditions = [];
}

abbrev gone : Error
gone = record { text = "gone"; not_found = true }

abbrev kube : Kube ℕ
kube = record {
  get = λ namespace name w. (if ltb w 2 then found nightly else broken gone, suc w);
  update = λ p w. (none, w);
  update_status = λ p w. (none, w);
  get_secret = λ namespace name w. (found (("api-key", "k") ∷ []), w);
  start = λ p a n w. (none, w);
  trigger = λ p w. w;
  set_condition = λ c l. c ∷ l;
  now = λ w. ("today", w);
}

abbrev calls : List (String × String)
calls = ("dtm", "nightly") ∷ ("dtm", "nightly") ∷ []

running-after_calls_example :
    let st = after_calls kube calls (at_start kube 0) in
    ((key : String) → running key st.effects ≡ one_if (lookup key st.schedulers))
    × ((namespace name : String) (e : Error) (w' : ℕ)
        → kube.get namespace name st.world ≡ (broken e, w')
        → e.not_found ≡ true
        → running (key_of namespace name) (reconcile kube namespace name st).1.effects ≡ 0)
running-after_calls_example = running-after_calls kube calls 0
