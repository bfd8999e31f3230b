-- ===== src/Alerts/States.antt =====
-- The alert state of a check, from what was observed of it.
use drop_the_mic.Base.{
  ℕ, zero, suc, ◌-◌, ◌≤◌, ◌<◌, ◌≡◌, refl, sym, ap, subst, ◌∙◌, String, Bool, true, false, ◌&&◌,
  ◌||◌, List, [], ◌∷◌, arith, if◌then◌else◌, leb, eqb, Bool-cases, inl, inr, leb→le,
}
use drop_the_mic.Base.Num.{ℤ, pos}
use drop_the_mic.Alerts.{
  AlertState, unknown, firing, resolved, escalated, CheckState, Store, get_or_create, on_fail,
  on_pass, fresh, new_store, next_int32, retried, on_fail_in, is_failing,
}
use drop_the_mic.Alerts.History.{
  Observation, after, concerns, observed, after-escalation_threshold, get_or_create-observe,
  get_or_create-new_store,
}

-- How many times the check failed since it last passed.
abbrev pub fails : String → String → List Observation → ℕ
fails policy check [] = 0
fails policy check (o ∷ earlier) =
    let n = fails policy check earlier in
    if concerns policy check o then (if o.failed then suc n else 0) else n

-- When it began to fail: the time of the first of these failures.
abbrev pub fails_since : String → String → List Observation → ℕ
fails_since policy check [] = 0
fails_since policy check (o ∷ earlier) =
    let since = fails_since policy check earlier in
    if concerns policy check o && o.failed && eqb (fails policy check earlier) 0
    then o.now
    else since

abbrev pub ever_failed : String → String → List Observation → Bool
ever_failed policy check [] = false
ever_failed policy check (o ∷ earlier) =
    (concerns policy check o && o.failed) || ever_failed policy check earlier

-- The state by the numbers alone.
abbrev pub state_for : (threshold failures : ℕ) → (before : Bool) → AlertState
state_for threshold zero before = if before then resolved else unknown
state_for threshold (suc n) before = if leb (suc n) threshold then firing else escalated

record IsAfter (threshold n start : ℕ) (before : Bool) (c : CheckState) : Type 0 where
  state : c.state ≡ state_for threshold n before
  since : 1 ≤ n → c.failed_since ≡ start
  count : 1 ≤ n → n ≤ threshold → c.retry_count ≡ pos (n - 1)

next_small : (r : ℤ) (n : ℕ) → n < 2147483647 → r ≡ pos n → next_int32 r ≡ pos (suc n)
next_small r n h e = ground (arith, e)

module _ (threshold now : ℕ) (c : CheckState) where
  retried-state :
      (n : ℕ)
      → c.state ≡ firing
      → c.retry_count ≡ pos n
      → (retried threshold now c).0.state ≡ (if leb (suc n) threshold then firing else escalated)
  retried-state n f e = ground (arith, f, e)

  retried-failed_since : (retried threshold now c).0.failed_since ≡ c.failed_since
  retried-failed_since = ground arith

  retried-retry_count : (retried threshold now c).0.retry_count ≡ c.retry_count
  retried-retry_count = ground arith

-- A failure after `n` failures.
IsAfter-on_fail_in :
    (threshold n start now : ℕ) (before : Bool) (c : CheckState)
    → 1 ≤ threshold
    → threshold ≤ 2147483647
    → IsAfter threshold n start before c
    → IsAfter threshold
        (suc n)
        (if eqb n 0 then now else start)
        true
        (on_fail_in (state_for threshold n before) threshold now c).0
IsAfter-on_fail_in threshold zero start now true c lo hi h = record {
  state = ground arith;
  since = λ _. refl;
  count = λ _ _. refl;
}
IsAfter-on_fail_in threshold zero start now false c lo hi h = record {
  state = ground arith;
  since = λ _. refl;
  count = λ _ _. refl;
}
IsAfter-on_fail_in threshold (suc n) start now before c lo hi h =
    elim (Bool-cases (leb (suc n) threshold)) [
      | inl e ↦ rw e (again e)
      | inr e ↦ rw e (record {
        state = h.state ∙ rw e refl ∙ over e;
        since = λ _. started ∙ same;
        count = λ _ k. absurd (beyond e k);
      })
    ]
  where
    next : CheckState
    next = record c { retry_count = next_int32 c.retry_count; last_updated = now }

    started : c.failed_since ≡ start
    started = h.since (omega arith)

    same : start ≡ (if eqb (suc n) 0 then now else start)
    same = ground arith

    over : leb (suc n) threshold ≡ false → escalated ≡ state_for threshold (suc (suc n)) true
    over e = ground arith

    beyond : leb (suc n) threshold ≡ false → suc (suc n) ≤ threshold → ⊥
    beyond e k = ground arith

    counted : leb (suc n) threshold ≡ true → next_int32 c.retry_count ≡ pos (suc n)
    counted e =
        let k = leb→le (suc n) threshold e in
        next_small c.retry_count n (omega arith) (h.count (omega arith) k ∙ ap pos (omega arith))

    again :
        leb (suc n) threshold ≡ true
        → IsAfter threshold
            (suc (suc n))
            (if eqb (suc n) 0 then now else start)
            true
            (retried threshold now next).0
    again e = record {
      state = retried-state threshold now next (suc n) (h.state ∙ rw e refl) (counted e);
      since = λ _. retried-failed_since threshold now next ∙ started ∙ same;
      count = λ _ _. retried-retry_count threshold now next ∙ counted e ∙ ap pos (omega arith);
    }

on_pass-state :
    (now : ℕ) (c : CheckState)
    → (on_pass now c).0.state ≡ (if is_failing c.state then resolved else c.state)
unfolding on_pass
on_pass-state now c = ground arith

passed_state :
    (threshold n : ℕ) (before : Bool)
    → (1 ≤ n → before ≡ true)
    → (if is_failing (state_for threshold n before) then resolved else state_for threshold n before)
      ≡ state_for threshold 0 before
passed_state threshold zero true h = refl
passed_state threshold zero false h = refl
passed_state threshold (suc n) before h = ground (arith, h (omega arith))

IsAfter-on_pass :
    (threshold n start start' now : ℕ) (before : Bool) (c : CheckState)
    → (1 ≤ n → before ≡ true)
    → IsAfter threshold n start before c
    → IsAfter threshold 0 start' before (on_pass now c).0
IsAfter-on_pass threshold n start start' now before c b h = record {
  state =
      on_pass-state now c
      ∙ ap (λ s. if is_failing s then resolved else s) h.state
      ∙ passed_state threshold n before b;
  since = λ k. absurd (none k);
  count = λ k. absurd (none k);
}
  where
    none : 1 ≤ 0 → ⊥
    none k = omega arith

fails-ever_failed :
    (policy check : String) (history : List Observation)
    → 1 ≤ fails policy check history
    → ever_failed policy check history ≡ true
fails-ever_failed policy check [] h = absurd (none h)
  where
    none : 1 ≤ 0 → ⊥
    none k = omega arith
fails-ever_failed policy check (o ∷ earlier) h =
    ground (arith, fails-ever_failed policy check earlier)

IsAfter-on_fail :
    (threshold n start now : ℕ) (before : Bool) (c : CheckState)
    → 1 ≤ threshold
    → threshold ≤ 2147483647
    → IsAfter threshold n start before c
    → IsAfter threshold (suc n) (if eqb n 0 then now else start) true (on_fail threshold now c).0
unfolding on_fail
IsAfter-on_fail threshold n start now before c lo hi h =
    subst
      (λ s.
        IsAfter threshold (suc n) (if eqb n 0 then now else start) true
          (on_fail_in s threshold now c).0)
      (sym h.state) (IsAfter-on_fail_in threshold n start now before c lo hi h)

module _ (threshold : ℕ) (policy check : String) (lo : 1 ≤ threshold)
    (hi : threshold ≤ 2147483647) where
  -- What the last observation makes of the numbers.
  IsAfter-observed :
      (o : Observation) (earlier : List Observation) (c : CheckState) (here : Bool)
      → concerns policy check o ≡ here
      → IsAfter threshold
          (fails policy check earlier)
          (fails_since policy check earlier)
          (ever_failed policy check earlier)
          c
      → IsAfter threshold
          (fails policy check (o ∷ earlier))
          (fails_since policy check (o ∷ earlier))
          (ever_failed policy check (o ∷ earlier))
          (if here then observed threshold o c else c)
  IsAfter-observed o earlier c false e h = rw e h
  IsAfter-observed o earlier c true e h = rw e (elim (Bool-cases o.failed) [
    | inl f ↦ rw f (IsAfter-on_fail threshold _ _ o.now _ c lo hi h)
    | inr f ↦
        rw f (IsAfter-on_pass threshold _ _ _ o.now _ c (fails-ever_failed policy check earlier) h)
  ])

  IsAfter-after :
      (history : List Observation) (s : Store)
      → s.escalation_threshold ≡ threshold
      → get_or_create policy check s ≡ fresh
      → IsAfter threshold
          (fails policy check history)
          (fails_since policy check history)
          (ever_failed policy check history)
          (get_or_create policy check (after history s))
  IsAfter-after [] s t e = record {
    state = ap (λ (c : CheckState). c.state) e;
    since = λ k. absurd (none_yet k);
    count = λ k. absurd (none_yet k);
  }
    where
      none_yet : 1 ≤ 0 → ⊥
      none_yet k = omega arith
  IsAfter-after (o ∷ earlier) s t e =
      subst
        (IsAfter threshold (fails policy check (o ∷ earlier))
          (fails_since policy check (o ∷ earlier)) (ever_failed policy check (o ∷ earlier)))
        (sym (
          get_or_create-observe policy check o (after earlier s)
          ∙ ap
              (λ n.
                if concerns policy check o
                then observed n o (get_or_create policy check (after earlier s))
                else get_or_create policy check (after earlier s))
              (after-escalation_threshold earlier s ∙ t)))
        (IsAfter-observed o earlier _ _ refl (IsAfter-after earlier s t e))

new_store-escalation_threshold : (n : ℕ) → 1 ≤ n → (new_store (pos n)).escalation_threshold ≡ n
unfolding new_store
new_store-escalation_threshold zero h = omega arith
new_store-escalation_threshold (suc n) h = refl

-- In a store that is new, with a positive threshold, after any observations: the state of a check is UNKNOWN
-- if it never failed, RESOLVED if it failed and passed since, FIRING if it failed since then at most as many
-- times as the threshold says, and ESCALATED beyond; and it fails since the first of these failures.
pub get_or_create-after :
    (policy check : String) (history : List Observation) (threshold : ℕ)
    → 1 ≤ threshold
    → threshold ≤ 2147483647
    → ((get_or_create policy check (after history (new_store (pos threshold)))).state
        ≡ state_for threshold (fails policy check history) (ever_failed policy check history))
      × (1 ≤ fails policy check history
          → (get_or_create policy check (after history (new_store (pos threshold)))).failed_since
            ≡ fails_since policy check history)
get_or_create-after policy check history threshold lo hi =
    let h =
      IsAfter-after threshold policy check lo hi history (new_store (pos threshold))
        (new_store-escalation_threshold threshold lo)
        (get_or_create-new_store policy check (pos threshold)) in
    (h.state, h.since)
