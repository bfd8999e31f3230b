-- ===== src/Policies/Pending/Answers.antt =====
-- The calls of the list that are in flight, and those of the pages that were left.
use mathlib.Core.Option.{Option, none, some}
use drop_the_mic.Base.{
  ℕ, suc, ◌≤◌, ◌+◌, length, length-append, arith, ◌≡◌, refl, subst, String, Bool, true, false, List,
  [], ◌∷◌, ◌++◌, inl,
}
use drop_the_mic.Client.{Result}
use drop_the_mic.Client.Endpoints.{Endpoint, run_now}
use drop_the_mic.Client.Flight.{
  IsSingle, add_call, IsSingle-start, IsSingle-answer, length-IsSingle, length-answer,
}
use drop_the_mic.Policies.{State, Action, act, confirm_delete}
use drop_the_mic.Policies.Pending.{
  Page, fresh, click_run, click_delete, confirmed, run_answered, delete_answered,
}

-- The states that the list comes to, with its runs and its deletions that are not answered yet, in any
-- order of the clicks and the answers. Leaving the page by the router and coming back makes the page
-- anew, with idle mutations: its calls, and those of the `n` pages before, are then `left`, and their
-- answers change nothing in the page that stands now.
pub data Reach : Page → (scans deletions left : List Endpoint) → (n : ℕ) → Type 0 where
  here : Reach fresh [] [] [] 0
  acts :
      {p : Page} {scans deletions left : List Endpoint} {n : ℕ}
      → (a : Action) → Reach p scans deletions left n
      → (act p.state a).1 ≡ none
      → Reach (record p { state = (act p.state a).0 }) scans deletions left n
  runs :
      {p : Page} {scans deletions left : List Endpoint} {n : ℕ}
      → (namespace name : String) → Reach p scans deletions left n
      → Reach
          (click_run namespace name p).0
          (add_call (click_run namespace name p).1 scans)
          deletions
          left
          n
  deletes :
      {p : Page} {scans deletions left : List Endpoint} {n : ℕ}
      → Reach p scans deletions left n
      → Reach (click_delete p).0 scans (add_call (click_delete p).1 deletions) left n
  answers_run :
      {p : Page} {scans deletions left : List Endpoint} {n : ℕ}
      → (name : String) (result : Result) (before : List Endpoint) (call : Endpoint)
        (after : List Endpoint)
      → Reach p scans deletions left n
      → scans ≡ before ++ call ∷ after
      → Reach (run_answered name result p).page (before ++ after) deletions left n
  answers_delete :
      {p : Page} {scans deletions left : List Endpoint} {n : ℕ}
      → (result : Result) (before : List Endpoint) (call : Endpoint) (after : List Endpoint)
      → Reach p scans deletions left n
      → deletions ≡ before ++ call ∷ after
      → Reach (delete_answered result p).page scans (before ++ after) left n
  returns :
      {p : Page} {scans deletions left : List Endpoint} {n : ℕ}
      → Reach p scans deletions left n
      → Reach fresh [] [] (scans ++ (deletions ++ left)) (suc n)
  answers_left :
      {p : Page} {scans deletions left : List Endpoint} {n : ℕ}
      → (before : List Endpoint) (call : Endpoint) (after : List Endpoint)
      → Reach p scans deletions left n
      → left ≡ before ++ call ∷ after
      → Reach p scans deletions (before ++ after) n

abbrev pub IsOneEach : Page → (scans deletions : List Endpoint) → Type 0
IsOneEach p scans deletions = IsSingle p.running scans × IsSingle p.deleting deletions

one_run :
    (namespace name : String) (state : State) (running deleting : Bool)
    (scans deletions : List Endpoint)
    → let p : Page = record { state = state; running = running; deleting = deleting } in
      IsOneEach p scans deletions
      → IsOneEach
          (click_run namespace name p).0
          (add_call (click_run namespace name p).1 scans)
          deletions
unfolding click_run act
one_run namespace name state true deleting scans deletions h = h
one_run namespace name state false deleting scans deletions (h, k) =
    (IsSingle-start (some (run_now namespace name)) scans h, k)

one_confirm :
    (p : Page) (answer : State × Option Endpoint) (scans deletions : List Endpoint)
    → p.deleting ≡ false
    → IsOneEach p scans deletions
    → IsOneEach (confirmed p answer).0 scans (add_call (confirmed p answer).1 deletions)
one_confirm p (state, none) scans deletions e h = h
one_confirm p (state, some call) scans deletions e (h, k) =
    (h, IsSingle-start (some call) deletions (subst (λ b. IsSingle b deletions) e k))

one_delete :
    (state : State) (running deleting : Bool) (scans deletions : List Endpoint)
    → let p : Page = record { state = state; running = running; deleting = deleting } in
      IsOneEach p scans deletions
      → IsOneEach (click_delete p).0 scans (add_call (click_delete p).1 deletions)
unfolding click_delete
one_delete state running true scans deletions h = h
one_delete state running false scans deletions h =
    one_confirm (record { state = state; running = running; deleting = false })
      (act state confirm_delete) scans deletions refl h

-- Whatever the user clicks and whenever the server answers: the page that stands now has at most one
-- scan and at most one deletion in flight, and its buttons wait exactly while theirs is not answered; and
-- of the pages before it, no more calls are in flight than twice as many as pages were left.
pub Reach-IsOneEach :
    {p : Page} {scans deletions left : List Endpoint} {n : ℕ}
    → Reach p scans deletions left n
    → IsOneEach p scans deletions × (length left ≤ n + n)
unfolding run_answered delete_answered
Reach-IsOneEach here = ((inl (refl, refl), inl (refl, refl)), omega arith)
Reach-IsOneEach (acts a r e) = Reach-IsOneEach r
Reach-IsOneEach (runs {p} {scans} {deletions} namespace name r) =
    let (h, l) = Reach-IsOneEach r in
    (one_run namespace name p.state p.running p.deleting scans deletions h, l)
Reach-IsOneEach (deletes {p} {scans} {deletions} r) =
    let (h, l) = Reach-IsOneEach r in (one_delete p.state p.running p.deleting scans deletions h, l)
Reach-IsOneEach (answers_run {p} {scans} name result before call after r e) =
    let ((h, k), l) = Reach-IsOneEach r in
    ((IsSingle-answer p.running before call after scans e h, k), l)
Reach-IsOneEach (answers_delete {p} {scans} {deletions} result before call after r e) =
    let ((h, k), l) = Reach-IsOneEach r in
    ((h, IsSingle-answer p.deleting before call after deletions e k), l)
Reach-IsOneEach (returns {p} {scans} {deletions} {left} r) =
    let ((h, k), l) = Reach-IsOneEach r in
    (
      (inl (refl, refl), inl (refl, refl)),
      omega (
        arith,
        length-append scans (deletions ++ left),
        length-append deletions left,
        length-IsSingle p.running scans h,
        length-IsSingle p.deleting deletions k,
        l,
      ),
    )
Reach-IsOneEach (answers_left {left = left} before call after r e) =
    let (h, l) = Reach-IsOneEach r in (h, omega (arith, length-answer before call after left e, l))
