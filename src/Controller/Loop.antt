-- ===== src/Controller/Loop.antt =====
-- operator/internal/controller/checklistpolicy_controller.go: `reconcileScheduler` and `Reconcile`.
use mathlib.Core.Option.{Option, none, some}
use drop_the_mic.Base.{String, Bool, false, not, List, [], ◌∷◌, ◌++◌, if◌then◌else◌}
use drop_the_mic.Base.Sets.{has, without}
use drop_the_mic.Base.Maps.{lookup, store, remove_key}
use drop_the_mic.Base.Text.{◌<>◌, truthy}
use drop_the_mic.Engine.{ScanSummary, text_or_empty}
use drop_the_mic.Scheduler.{is_positive, summary_text}
use drop_the_mic.Controller.{
  Kube, Error, Reply, found, broken, Policy, Adapter, Notifier, State, Outcome, done, requeue,
  after_seconds, fails, started, triggered, finalizer_name, run_now_annotation, key_of, wrap,
  build_adapter, reason_of, stop_scheduler,
}
use drop_the_mic.Controller.Channels.{resolve_secret, build_dispatcher}

module _ {W : Type 0} (kube : Kube W) where
  -- `reconcileScheduler`, from its last step to its first; the old scheduler is stopped in any case.
  abbrev pub put_scheduler : Policy → State W → Option Error × W → Option Error × State W
  put_scheduler policy st (some e, w) =
      (some (wrap "starting scheduler: " e), record st { world = w })
  put_scheduler policy st (none, w) = (
    none,
    record {
      schedulers = store (key_of policy.namespace policy.name) policy st.schedulers;
      effects = started (key_of policy.namespace policy.name) ∷ st.effects;
      world = w;
    },
  )

  abbrev pub with_dispatcher :
      Policy → Adapter → State W → Reply (List Notifier) × W → Option Error × State W
  with_dispatcher policy adapter st (broken e, w) =
      (some (wrap "building dispatcher: " e), record st { world = w })
  with_dispatcher policy adapter st (found notifiers, w) =
      put_scheduler policy st (kube.start policy adapter notifiers w)

  abbrev pub with_adapter : Policy → State W → Reply Adapter → Option Error × State W
  with_adapter policy st (broken e) = (some (wrap "building LLM adapter: " e), st)
  with_adapter policy st (found adapter) =
      with_dispatcher policy adapter st
        (build_dispatcher kube policy.namespace policy.notification st.world)

  abbrev pub with_api_key : Policy → State W → Reply String × W → Option Error × State W
  with_api_key policy st (broken e, w) = (
    some (
        wrap
          ("LLM secret '" <> policy.llm.secret_ref.name <> "' not found in namespace '"
            <> policy.namespace <> "': ")
          e),
    record st { world = w },
  )
  with_api_key policy st (found api_key, w) =
      with_adapter policy (record st { world = w }) (build_adapter policy.llm api_key)

  abbrev pub reconcile_scheduler : Policy → State W → Option Error × State W
  reconcile_scheduler policy st =
      let stopped_st = stop_scheduler (key_of policy.namespace policy.name) st in
      with_api_key policy stopped_st
        (resolve_secret kube policy.namespace policy.llm.secret_ref stopped_st.world)

  -- Two conditions, one after the other.
  abbrev pub set_both :
      (first_kind first_status second_kind second_status reason message : String)
      → Policy
      → W
      → Policy × W
  set_both k₁ s₁ k₂ s₂ reason message policy w =
      let first = kube.now w in
      let second = kube.now first.1 in
      (
        record policy {
          conditions =
              kube.set_condition
                (record {
                  kind = k₂;
                  status = s₂;
                  reason = reason;
                  message = message;
                  last_transition_time = some second.0;
                })
                (kube.set_condition
                  (record {
                    kind = k₁;
                    status = s₁;
                    reason = reason;
                    message = message;
                    last_transition_time = some first.0;
                  })
                  policy.conditions);
        },
        second.1,
      )

  abbrev pub failed_before : Option ScanSummary → Bool
  failed_before none = false
  failed_before (some s) = is_positive s.fail

  abbrev pub summary_or_empty : Option ScanSummary → String
  summary_or_empty none = ""
  summary_or_empty (some s) = summary_text s

  abbrev pub running_conditions : Policy → W → Policy × W
  running_conditions policy w =
      if failed_before policy.summary
      then set_both "Degraded" "True" "Available" "False" "ChecksFailed"
          (summary_or_empty policy.summary) policy w
      else set_both "Available" "True" "Degraded" "False" "SchedulerRunning" "Scheduler is running"
          policy w

  abbrev pub status_written : State W → Option Error × W → Outcome × State W
  status_written st (some e, w) = (after_seconds 10, record st { world = w })
  status_written st (none, w) = (done, record st { world = w })

  -- The status after the scheduler was built, or was not.
  abbrev pub scheduler_built : Policy → Option Error × State W → Outcome × State W
  scheduler_built policy (some e, st) =
      let set =
        set_both "Degraded" "True" "Available" "False" (reason_of e) e.text policy st.world in
      (fails e, record st { world = (kube.update_status set.0 set.1).1 })
  scheduler_built policy (none, st) =
      let set = running_conditions policy st.world in
      status_written st (kube.update_status set.0 set.1)

  abbrev pub updated : Outcome → State W → Option Error × W → Outcome × State W
  updated outcome st (some e, w) = (fails e, record st { world = w })
  updated outcome st (none, w) = (outcome, record st { world = w })

  abbrev pub deletion : (key : String) → Policy → State W → Outcome × State W
  deletion key policy st =
      let stopped_st = stop_scheduler key st in
      if has policy.finalizers finalizer_name
      then updated done stopped_st (
          kube.update (record policy { finalizers = without finalizer_name policy.finalizers })
            stopped_st.world)
      else (done, st)

  abbrev pub triggered_of : (key : String) → Option Policy → State W → State W
  triggered_of key none st = st
  triggered_of key (some p) st = record st {
    effects = triggered key ∷ st.effects;
    world = kube.trigger p st.world;
  }

  abbrev pub run_now : (key : String) → Policy → State W → Outcome × State W
  run_now key policy st =
      let run = triggered_of key (lookup key st.schedulers) st in
      updated done run (
        kube.update
          (record policy { annotations = remove_key run_now_annotation policy.annotations })
          run.world)

  abbrev pub reconcile_found : (key : String) → Policy → State W → Outcome × State W
  reconcile_found key policy st =
      if policy.is_deleted
      then deletion key policy st
      else if not (has policy.finalizers finalizer_name)
      then updated requeue st (
          kube.update (record policy { finalizers = policy.finalizers ++ finalizer_name ∷ [] })
            st.world)
      else if truthy (text_or_empty (lookup run_now_annotation policy.annotations))
      then run_now key policy st
      else scheduler_built policy (reconcile_scheduler policy st)

  abbrev pub reconcile_reply : (key : String) → State W → Reply Policy × W → Outcome × State W
  reconcile_reply key st (broken e, w) =
      if e.not_found
      then (done, stop_scheduler key (record st { world = w }))
      else (fails e, record st { world = w })
  reconcile_reply key st (found policy, w) = reconcile_found key policy (record st { world = w })

  -- `Reconcile`
  unfoldable pub reconcile : (namespace name : String) → State W → Outcome × State W
  reconcile namespace name st =
      reconcile_reply (key_of namespace name) st (kube.get namespace name st.world)
