-- ===== src/Engine/Scan.antt =====
-- operator/internal/engine/engine.go: `RunChecks`, with the snapshot and the batches that it asks the adapter for.
use drop_the_mic.Base.{
  ℕ, zero, suc, String, List, [], ◌∷◌, ◌++◌, map, length, take, drop, if◌then◌else◌,
}
use drop_the_mic.Base.Maps.{lookup}
use drop_the_mic.Base.Text.{◌<>◌}
use drop_the_mic.Engine.{
  Answer, CheckItem, CheckResult, ResultSpec, VerifyRequest, BatchVerifyRequest, Adapter, Policy,
  Engine, batch_size, result_of_answer, results_of_answer, snapshot_tools, section_of, reused,
  policy_key, map_or_empty, is_reused, spec_of, remembered, ok,
}

module _ {W : Type 0} (io : Adapter W) where
  abbrev pub collect : List String → W → String × W
  collect [] w = ("", w)
  collect (name ∷ rest) w =
      let called = io.call_tool name w in
      let later = collect rest called.1 in (section_of name called.0 <> later.0, later.1)

  abbrev pub collect_snapshot : W → String × W
  collect_snapshot w = collect snapshot_tools w

  abbrev pub request_of : Policy → (snapshot : String) → CheckItem → VerifyRequest
  request_of policy snapshot check = record {
    check_id = check.id;
    description = check.description;
    namespaces = policy.target_namespaces;
    snapshot = snapshot;
  }

  -- In a batch the requests carry only the check; the rest stands in the batch.
  abbrev pub batch_of : Policy → (snapshot : String) → List CheckItem → BatchVerifyRequest
  batch_of policy snapshot batch = record {
    checks =
        map
          (λ (check : CheckItem). record {
            check_id = check.id;
            description = check.description;
            namespaces = [];
            snapshot = "";
          })
          batch;
    namespaces = policy.target_namespaces;
    snapshot = snapshot;
  }

  abbrev pub run_batch : Policy → (snapshot : String) → List CheckItem → W → List CheckResult × W
  run_batch policy snapshot (check ∷ []) w =
      let answer = io.verify (request_of policy snapshot check) w in
      (result_of_answer check answer.0 ∷ [], answer.1)
  run_batch policy snapshot batch w =
      let answer = io.batch_verify (batch_of policy snapshot batch) w in
      (results_of_answer batch answer.0, answer.1)

  -- The loop `i += batchSize` over the rest of the checks, which ends when none is left.
  abbrev pub run_batches :
      (fuel : ℕ) → Policy → (snapshot : String) → List CheckItem → W → List CheckResult × W
  run_batches fuel policy snapshot [] w = ([], w)
  run_batches zero policy snapshot (check ∷ rest) w = ([], w)
  run_batches (suc fuel) policy snapshot (check ∷ rest) w =
      let batch = run_batch policy snapshot (take batch_size (check ∷ rest)) w in
      let later = run_batches fuel policy snapshot (drop batch_size (check ∷ rest)) batch.1 in
      (batch.0 ++ later.0, later.1)

  -- The two ways to the results: from the previous verdicts, and from the adapter.
  abbrev pub reuse :
      Policy → List CheckItem → Engine → (started_at : ℕ) → W → Answer ResultSpec × (Engine × W)
  reuse policy checks eng started_at w =
      let prev = map_or_empty (lookup (policy_key policy) eng.last_results) in
      let completed = io.time_now w in
      (ok (spec_of policy started_at completed.0 (map (reused prev) checks)), (eng, completed.1))

  abbrev pub ask :
      Policy
      → List CheckItem
      → (snapshot : String) → Engine
      → (started_at : ℕ) → W
      → Answer ResultSpec × (Engine × W)
  ask policy checks snapshot eng started_at w =
      let run = run_batches (length checks) policy snapshot checks w in
      let completed = io.time_now run.1 in
      (
        ok (spec_of policy started_at completed.0 run.0),
        (remembered (io.hash snapshot) policy run.0 eng, completed.1),
      )

  -- `RunChecks`: the result, the engine that remembers it, and the world.
  unfoldable pub run_checks :
      Policy → List CheckItem → Engine → W → Answer ResultSpec × (Engine × W)
  unfolding is_reused
  run_checks policy checks eng w =
      let started = io.time_now w in
      let snap = collect_snapshot started.1 in
      if is_reused (io.hash snap.0) eng policy checks
      then reuse policy checks eng started.0 snap.1
      else ask policy checks snap.0 eng started.0 snap.1
