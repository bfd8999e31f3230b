-- ===== src/Engine/Reuse.antt =====
-- The second scan of a cluster that has not changed: `RunChecks` reuses the verdicts of the first.
use drop_the_mic.Base.{
  ◌≤◌, ◌≡◌, refl, sym, ap, ◌∙◌, subst, String, Bool, true, false, List, [], ◌∷◌, map, length, arith,
  if◌then◌else◌, ltb, ◌==◌, eq_iff, eq_refl, inl, inr, Bool-cases, Option, none, some, All,
}
use drop_the_mic.Base.Sets.{has, IsDistinct}
use drop_the_mic.Base.Maps.{Map, lookup, store, lookup-store, lookup-store_same}
use drop_the_mic.Policies.{or_option}
use drop_the_mic.Engine.{
  Answer, ok, failed, CheckItem, CheckResult, ResultSpec, Adapter, Policy, Engine, reused,
  is_reused, is_known, is_some_map, map_or_empty, remembered, verdict_map, all_known, text_or_empty,
  policy_key,
}
use drop_the_mic.Engine.Scan.{run_checks, collect_snapshot}
use drop_the_mic.Engine.Answers.{checks_of, checks_of-run_checks, checks_of-run_batches}

abbrev pub ids_of : List CheckItem → List String
ids_of = map (λ (c : CheckItem). c.id)

-- The verdict of a check among results.
abbrev pub verdict_in : List CheckResult → String → Option String
verdict_in [] id = none
verdict_in (r ∷ rest) id =
    let later = verdict_in rest id in if r.id == id then some r.verdict else later

verdict_in-absent :
    (results : List CheckResult) (id : String)
    → has (ids_of (checks_of results)) id ≡ false
    → verdict_in results id ≡ none
verdict_in-absent [] id h = refl
verdict_in-absent (r ∷ rest) id h = ground (arith, verdict_in-absent rest id, h)

lookup-verdict_map :
    (m : Map String) (results : List CheckResult) (id : String)
    → IsDistinct (ids_of (checks_of results))
    → lookup id (verdict_map m results) ≡ or_option (verdict_in results id) (lookup id m)
lookup-verdict_map m [] id d = refl
lookup-verdict_map m (r ∷ rest) id (e, d) =
    lookup-verdict_map (store r.id r.verdict m) rest id d
    ∙ ap (or_option (verdict_in rest id)) (lookup-store r.id id r.verdict m)
    ∙ last (r.id == id) (λ p. verdict_in-absent rest id (rw⁻¹ ((eq_iff r.id id).0 p) e))
  where
    last :
        (b : Bool)
        → (b ≡ true → verdict_in rest id ≡ none)
        → or_option (verdict_in rest id) (if b then some r.verdict else lookup id m)
          ≡ or_option (if b then some r.verdict else verdict_in rest id) (lookup id m)
    last true h = rw (h refl) refl
    last false h = refl

is_known-some : (o : Option String) → is_known o ≡ true → o ≡ some (text_or_empty o)
is_known-some (some v) h = refl
is_known-some none h = ground (arith, h)

-- A verdict that is reused is the one that is remembered.
lookup-reused :
    (prev : Map String) (checks : List CheckItem) (id : String)
    → all_known checks prev ≡ true
    → has (ids_of checks) id ≡ true
    → lookup id prev ≡ verdict_in (map (reused prev) checks) id
lookup-reused prev [] id k h = ground (arith, h)
lookup-reused prev (c ∷ checks) id k h = elim (Bool-cases (c.id == id)) [
  | inl e ↦ rw e (
      rw ((eq_iff c.id id).0 e)
        (is_known-some (lookup id prev) (rw ((eq_iff c.id id).0 e) at known)))
  | inr e ↦ rw e (lookup-reused prev checks id (ground arith) (ground arith))
]
  where
    known : is_known (lookup c.id prev) ≡ true
    known = ground arith

is_known-verdict_in :
    (results : List CheckResult) (id : String)
    → has (ids_of (checks_of results)) id ≡ true
    → is_known (verdict_in results id) ≡ true
is_known-verdict_in [] id h = ground (arith, h)
is_known-verdict_in (r ∷ rest) id h = ground (arith, is_known-verdict_in rest id, h)

-- A map that has the verdicts of these results for their checks.
abbrev IsMemory : Map String → List CheckResult → Type 0
IsMemory m results =
    (id : String) → has (ids_of (checks_of results)) id ≡ true → lookup id m ≡ verdict_in results id

module _ (m : Map String) (results : List CheckResult) (h : IsMemory m results) where
  all_known-IsMemory :
      (later : List CheckItem)
      → All (λ (c : CheckItem). has (ids_of (checks_of results)) c.id ≡ true) later
      → all_known later m ≡ true
  all_known-IsMemory [] a = refl
  all_known-IsMemory (c ∷ later) (k, a) =
      rw (h c.id k, is_known-verdict_in results c.id k, all_known-IsMemory later a) refl

  verdicts_reused :
      (later : List CheckItem)
      → All (λ (c : CheckItem). has (ids_of (checks_of results)) c.id ≡ true) later
      → map (λ (r : CheckResult). some r.verdict) (map (reused m) later)
        ≡ map (λ (c : CheckItem). verdict_in results c.id) later
  verdicts_reused [] a = refl
  verdicts_reused (c ∷ later) (k, a) = rw (h c.id k) (λ i. first i ∷ verdicts_reused later a i)
    where
      first : some (text_or_empty (verdict_in results c.id)) ≡ verdict_in results c.id
      first = sym (is_known-some (verdict_in results c.id) (is_known-verdict_in results c.id k))

abbrev pub results_of : Answer ResultSpec → List CheckResult
results_of (ok spec) = spec.checks
results_of (failed e) = []

-- An engine that remembers these results and the hash of their snapshot.
record IsRemembered (eng : Engine) (policy : Policy) (current : String) (results : List CheckResult)
    : Type 0 where
  memory : Map String
  hash : (text_or_empty (lookup (policy_key policy) eng.snapshot_hashes) == current) ≡ true
  last : lookup (policy_key policy) eng.last_results ≡ some memory
  same : IsMemory memory results

IsRemembered-remembered :
    (eng : Engine) (policy : Policy) (current : String) (results : List CheckResult)
    → IsDistinct (ids_of (checks_of results))
    → IsRemembered (remembered current policy results eng) policy current results
IsRemembered-remembered eng policy current results d = record {
  memory = verdict_map [] results;
  hash =
      ap (λ o. text_or_empty o == current) (lookup-store_same key current eng.snapshot_hashes)
      ∙ eq_refl current;
  last = lookup-store_same key (verdict_map [] results) eng.last_results;
  same = λ id k. lookup-verdict_map [] results id d ∙ or_none (verdict_in results id);
}
  where
    key : String
    key = policy_key policy

    or_none : (o : Option String) → or_option o none ≡ o
    or_none none = refl
    or_none (some v) = refl

IsRemembered-reused :
    (eng : Engine) (policy : Policy) (current : String) (checks : List CheckItem)
    → is_reused current eng policy checks ≡ true
    → IsRemembered eng policy current
        (map (reused (map_or_empty (lookup (policy_key policy) eng.last_results))) checks)
unfolding is_reused
IsRemembered-reused eng policy current checks e = record {
  memory = prev;
  hash = ground arith;
  last = some_prev (lookup (policy_key policy) eng.last_results) (ground arith);
  same = λ id k. lookup-reused prev checks id (ground arith) (rw (checks_of-reused checks) at k);
}
  where
    prev : Map String
    prev = map_or_empty (lookup (policy_key policy) eng.last_results)

    some_prev : (o : Option (Map String)) → is_some_map o ≡ true → o ≡ some (map_or_empty o)
    some_prev (some m) h = refl
    some_prev none h = ground (arith, h)

    checks_of-reused : (l : List CheckItem) → checks_of (map (reused prev) l) ≡ l
    checks_of-reused [] = refl
    checks_of-reused (c ∷ l) = ap (c ∷◌) (checks_of-reused l)

module _ {W : Type 0} (io : Adapter W) (policy : Policy) where
  -- The hash of the snapshot that a scan takes, and the world after a scan that asks no LLM.
  abbrev pub snapshot_hash : W → String
  snapshot_hash w = io.hash (collect_snapshot io (io.time_now w).1).0

  abbrev pub looked_at : W → W
  looked_at w = (io.time_now (collect_snapshot io (io.time_now w).1).1).1

  IsRemembered-run_checks :
      (checks : List CheckItem) (eng : Engine) (w : W)
      → IsDistinct (ids_of checks)
      → IsRemembered
          (run_checks io policy checks eng w).1.0
          policy
          (snapshot_hash w)
          (results_of (run_checks io policy checks eng w).0)
  unfolding run_checks
  IsRemembered-run_checks checks eng w d =
      elim (Bool-cases (is_reused (snapshot_hash w) eng policy checks)) [
        | inl e ↦ rw e (IsRemembered-reused eng policy (snapshot_hash w) checks e)
        | inr e ↦ rw e (
            IsRemembered-remembered eng policy (snapshot_hash w) _
              (rw (checks_of-run_batches io policy (length checks) _ checks _ (omega arith)) d))
      ]

  run_checks-remembered :
      (results : List CheckResult) (later : List CheckItem) (eng : Engine) (w : W)
      → IsRemembered eng policy (snapshot_hash w) results
      → 1 ≤ length later
      → All (λ (c : CheckItem). has (ids_of (checks_of results)) c.id ≡ true) later
      → (map (λ (r : CheckResult). some r.verdict) (results_of (run_checks io policy later eng w).0)
          ≡ map (λ (c : CheckItem). verdict_in results c.id) later)
        × ((run_checks io policy later eng w).1.1 ≡ looked_at w)
  unfolding run_checks is_reused
  run_checks-remembered results later eng w m n a =
      rw (m.hash, m.last, nonempty, all_known-IsMemory m.memory results m.same later a)
        (verdicts_reused m.memory results m.same later a, refl)
    where
      nonempty : ltb 0 (length later) ≡ true
      nonempty = ground arith

  -- Where a scan of checks with distinct identifiers is followed by one of some of these checks, and their
  -- snapshots have one hash: the second gives each check the verdict that the first gave it, without asking
  -- the LLM, and goes on from the engine that the first left.
  pub run_checks-unchanged :
      (checks later : List CheckItem) (eng : Engine) (w w' : W)
      → IsDistinct (ids_of checks)
      → 1 ≤ length later
      → All (λ (c : CheckItem). has (ids_of checks) c.id ≡ true) later
      → snapshot_hash w' ≡ snapshot_hash w
      → (map
            (λ (r : CheckResult). some r.verdict)
            (results_of (run_checks io policy later (run_checks io policy checks eng w).1.0 w').0)
          ≡ map
              (λ (c : CheckItem).
                verdict_in (results_of (run_checks io policy checks eng w).0) c.id)
              later)
        × ((run_checks io policy later (run_checks io policy checks eng w).1.0 w').1.1
            ≡ looked_at w')
  run_checks-unchanged checks later eng w w' d n a e =
      run_checks-remembered (results_of first.0) later first.1.0 w'
        (subst (λ h. IsRemembered first.1.0 policy h (results_of first.0)) (sym e)
          (IsRemembered-run_checks checks eng w d))
        n (subst (λ l. All (λ (c : CheckItem). has (ids_of l) c.id ≡ true) later) (sym same) a)
    where
      first : Answer ResultSpec × (Engine × W)
      first = run_checks io policy checks eng w

      same : checks_of (results_of first.0) ≡ checks
      same =
          let s = checks_of-run_checks io policy checks eng w in
          ap (λ r. checks_of (results_of r)) s.1.0 ∙ s.1.1
