-- ===== src/Engine/Answers.antt =====
-- What a scan says of each check, whatever the adapter and the tools answer.
use drop_the_mic.Base.{
  ℕ, zero, suc, ◌≤◌, ◌≡◌, refl, ap, ◌∙◌, String, Bool, true, false, List, [], ◌∷◌, ◌++◌, map,
  length, take, drop, length-drop, take-append-drop, arith, if◌then◌else◌,
}
use drop_the_mic.Engine.{
  Answer, ok, failed, CheckItem, CheckResult, ResultSpec, VerifyResponse, Adapter, Policy, Engine,
  result_of_answer, pair_up, results_of_answer, batch_size, is_reused,
}
use drop_the_mic.Engine.Scan.{run_batch, run_batches, run_checks, collect_snapshot, reuse, ask}

-- The check that a result is about.
abbrev pub check_of : CheckResult → CheckItem
check_of r = record { id = r.id; description = r.description; severity = r.severity }

abbrev pub checks_of : List CheckResult → List CheckItem
checks_of = map check_of

checks_of-append : (l r : List CheckResult) → checks_of (l ++ r) ≡ checks_of l ++ checks_of r
checks_of-append [] r = refl
checks_of-append (x ∷ l) r = ap (check_of x ∷◌) (checks_of-append l r)

checks_of-pair_up :
    (batch : List CheckItem) (responses : List VerifyResponse)
    → checks_of (pair_up batch responses) ≡ batch
checks_of-pair_up [] responses = refl
checks_of-pair_up (check ∷ batch) [] = ap (check ∷◌) (checks_of-pair_up batch [])
checks_of-pair_up (check ∷ batch) (r ∷ responses) =
    ap (check ∷◌) (checks_of-pair_up batch responses)

checks_of-failed :
    (f : CheckItem → CheckResult) (batch : List CheckItem)
    → ((c : CheckItem) → check_of (f c) ≡ c)
    → checks_of (map f batch) ≡ batch
checks_of-failed f [] h = refl
checks_of-failed f (check ∷ batch) h = λ i. h check i ∷ checks_of-failed f batch h i

checks_of-results_of_answer :
    (batch : List CheckItem) (a : Answer (List VerifyResponse))
    → checks_of (results_of_answer batch a) ≡ batch
checks_of-results_of_answer batch (ok responses) = checks_of-pair_up batch responses
checks_of-results_of_answer batch (failed e) = checks_of-failed _ batch (λ c. refl)

checks_of-result_of_answer :
    (check : CheckItem) (a : Answer VerifyResponse) → check_of (result_of_answer check a) ≡ check
checks_of-result_of_answer check (ok r) = refl
checks_of-result_of_answer check (failed e) = refl

module _ {W : Type 0} (io : Adapter W) (policy : Policy) where
  checks_of-run_batch :
      (snapshot : String) (batch : List CheckItem) (w : W)
      → checks_of (run_batch io policy snapshot batch w).0 ≡ batch
  checks_of-run_batch snapshot [] w = checks_of-results_of_answer [] _
  checks_of-run_batch snapshot (check ∷ []) w =
      ap (λ c. c ∷ []) (checks_of-result_of_answer check _)
  checks_of-run_batch snapshot (check ∷ check' ∷ batch) w =
      checks_of-results_of_answer (check ∷ check' ∷ batch) _

  -- The fuel, one for each check, is enough: no check is left out.
  pub checks_of-run_batches :
      (fuel : ℕ) (snapshot : String) (checks : List CheckItem) (w : W)
      → length checks ≤ fuel
      → checks_of (run_batches io fuel policy snapshot checks w).0 ≡ checks
  checks_of-run_batches fuel snapshot [] w h = refl
  checks_of-run_batches zero snapshot (check ∷ rest) w h = absurd (none h)
    where
      none : suc (length rest) ≤ 0 → ⊥
      none k = omega arith
  checks_of-run_batches (suc fuel) snapshot (check ∷ rest) w h =
      checks_of-append _ _
      ∙ ap
          (λ l.
            l
            ++ checks_of
                (run_batches io fuel policy snapshot (drop batch_size (check ∷ rest))
                  (run_batch io policy snapshot (take batch_size (check ∷ rest)) w).1).0)
          (checks_of-run_batch snapshot (take batch_size (check ∷ rest)) w)
      ∙ ap (take batch_size (check ∷ rest) ++◌) (
          checks_of-run_batches fuel snapshot (drop batch_size (check ∷ rest)) _
            (omega (arith, length-drop 4 rest)))
      ∙ take-append-drop batch_size (check ∷ rest)

  -- A scan never fails: it has one result for each check, in their order, with its identifier, description
  -- and severity.
  pub checks_of-run_checks :
      (checks : List CheckItem) (eng : Engine) (w : W)
      → (spec : ResultSpec) × (((run_checks io policy checks eng w).0 ≡ ok spec)
          × (checks_of spec.checks ≡ checks))
  unfolding run_checks
  checks_of-run_checks checks eng w = either (is_reused (io.hash snapshot) eng policy checks)
    where
      started : ℕ × W
      started = io.time_now w

      snapshot : String
      snapshot = (collect_snapshot io started.1).0

      world : W
      world = (collect_snapshot io started.1).1

      either :
          (b : Bool)
          → (spec : ResultSpec) × (((if b
                  then reuse io policy checks eng started.0 world
                  else ask io policy checks snapshot eng started.0 world).0
                ≡ ok spec)
              × (checks_of spec.checks ≡ checks))
      either true = (_, (refl, checks_of-failed _ checks (λ c. refl)))
      either false =
          (_, (refl, checks_of-run_batches (length checks) snapshot checks world (omega arith)))
