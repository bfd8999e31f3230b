-- ===== src/Toast/Progress.antt =====
-- The clock never stands still: only finitely many timers are due at one time.
use mathlib.Core.Option.{Option, none, some}
use drop_the_mic.Base.{
  ℕ, zero, suc, ◌+◌, ◌≤◌, ◌<◌, ◌≡◌, refl, ap, ◌∙◌, String, Bool, false, not, List, [], ◌∷◌, ◌++◌,
  map, filter, eqb, All, arith, ◌⊎◌, inl, inr, leb, leb→le, if◌then◌else◌, Bool-cases,
  filter-append, eqb_iff,
}
use drop_the_mic.Toast.{
  ToastType, Item, State, run_effect, show_toast, remove_toast, hide, IsDue, IsAhead, IsWaiting,
  Quiet, timer_fires, done_fires, time_passes, Reach, Quietly, stay, then_step,
}
use drop_the_mic.Toast.Vanish.{show_toast-vanish}

prepend : {s t u : State} → Quiet s t → Quietly t u → Quietly s u
prepend q stay = then_step stay q
prepend q (then_step r p) = then_step (prepend q r) p

-- 1 if the timer is due.
abbrev due : ℕ → Option ℕ → ℕ
due now none = 0
due now (some d) = if leb d now then 1 else 0

abbrev weight : ℕ → List Item → ℕ
weight now [] = 0
weight now (i ∷ l) = due now i.timer + due now i.done + weight now l

due_cases : (now : ℕ) (o : Option ℕ) → IsAhead now o ⊎ (IsDue now o × (due now o ≡ 1))
due_cases now none = inl tt
due_cases now (some d) = elim (Bool-cases (leb d now)) [
  | inl e ↦ inr (leb→le d now e, rw e refl)
  | inr e ↦ inl (ahead e)
]
  where
    ahead : leb d now ≡ false → now < d
    ahead e = ground arith

due_ahead : (now k : ℕ) → due now (some (now + suc k)) ≡ 0
due_ahead now k = ground arith

-- An item with a timer that is due, and where it stands.
record Next (now : ℕ) (l : List Item) : Type 0 where
  before : List Item
  item : Item
  after : List Item
  at : l ≡ before ++ item ∷ after
  which :
      (IsDue now item.timer × (due now item.timer ≡ 1))
      ⊎ (IsDue now item.done × (due now item.done ≡ 1))

find-Next : (now : ℕ) (l : List Item) → All (IsWaiting now) l ⊎ Next now l
find-Next now [] = inl tt
find-Next now (i ∷ l) = elim (due_cases now i.timer) [
  | inr d ↦ inr (record { before = []; item = i; after = l; at = refl; which = inl d })
  | inl a ↦ elim (due_cases now i.done) [
    | inr d ↦ inr (record { before = []; item = i; after = l; at = refl; which = inr d })
    | inl b ↦ elim (find-Next now l) [
      | inl w ↦ inl ((a, b), w)
      | inr n ↦ inr (record {
        before = i ∷ n.before;
        item = n.item;
        after = n.after;
        at = ap (i ∷◌) n.at;
        which = n.which;
      })
    ]
  ]
]

weight-append : (now : ℕ) (k l : List Item) → weight now (k ++ l) ≡ weight now k + weight now l
weight-append now [] l = omega arith
weight-append now (i ∷ k) l = omega (arith, weight-append now k l)

weight-filter : (now : ℕ) (p : Item → Bool) (l : List Item) → weight now (filter p l) ≤ weight now l
weight-filter now p [] = omega arith
weight-filter now p (i ∷ l) = elim (Bool-cases (p i)) [
  | inl e ↦ rw e (omega (arith, weight-filter now p l))
  | inr e ↦ rw e (omega (arith, weight-filter now p l))
]

weight-effect : (now : ℕ) (l : List Item) → weight now (map (run_effect now) l) ≤ weight now l
weight-effect now [] = omega arith
weight-effect now (i ∷ l) = omega (arith, due_ahead now 2999, weight-effect now l)

-- Each firing leaves fewer timers that are due.
weight-hide :
    (now : ℕ) (before : List Item) (i : Item) (after : List Item)
    → due now i.timer ≡ 1
    → weight now (before ++ hide now i ∷ after) < weight now (before ++ i ∷ after)
weight-hide now before i after e = omega (
  arith,
  weight-append now before (hide now i ∷ after),
  weight-append now before (i ∷ after),
  due_ahead now 199,
)

filter_out :
    (id : ℕ) (before : List Item) (i : Item) (after : List Item)
    → i.toast.id ≡ id
    → let other = λ (j : Item). not (eqb j.toast.id id) in
      filter other (before ++ i ∷ after) ≡ filter other before ++ filter other after
filter_out id before i after e =
    let other = λ (j : Item). not (eqb j.toast.id id) in
    let found = (eqb_iff i.toast.id id).1 e in
    filter-append other before (i ∷ after) ∙ rw found refl

weight-remove :
    (s : State) (before : List Item) (i : Item) (after : List Item)
    → s.items ≡ before ++ i ∷ after
    → due s.now i.done ≡ 1
    → weight s.now (remove_toast i.toast.id s).items < weight s.now s.items
unfolding remove_toast
weight-remove s before i after e d =
    let other = λ (j : Item). not (eqb j.toast.id i.toast.id) in
    let kept = ap (filter other) e ∙ filter_out i.toast.id before i after refl in
    omega (
      arith,
      weight-effect s.now (filter other s.items),
      ap (weight s.now) kept,
      weight-append s.now (filter other before) (filter other after),
      weight-filter s.now other before,
      weight-filter s.now other after,
      ap (weight s.now) e,
      weight-append s.now before (i ∷ after),
    )

concat : {s t u : State} → Quietly s t → Quietly t u → Quietly s u
concat p stay = p
concat p (then_step r q) = then_step (concat p r) q

-- A step that takes one timer away of those that are due.
fire :
    (s : State)
    → Next s.now s.items
    → (t : State) × Quiet s t × (t.now ≡ s.now) × (weight t.now t.items < weight s.now s.items)
unfolding remove_toast
fire s n = elim n.which [
  | inl (d, w) ↦ (
    record s { items = n.before ++ hide s.now n.item ∷ n.after },
    timer_fires n.before n.item n.after n.at d refl,
    refl,
    rw n.at (weight-hide s.now n.before n.item n.after w),
  )
  | inr (d, w) ↦ (
    remove_toast n.item.toast.id s,
    done_fires n.before n.item n.after n.at d refl,
    refl,
    weight-remove s n.before n.item n.after n.at w,
  )
]

-- The timers that are due fire, and then the clock goes on.
tick :
    (n : ℕ) (s : State) → weight s.now s.items < n → (t : State) × Quietly s t × (t.now ≡ s.now + 1)
tick zero s h = absurd (impossible h)
  where
    impossible : weight s.now s.items < 0 → ⊥
    impossible q = omega arith
tick (suc n) s h = elim (find-Next s.now s.items) [
  | inl w ↦ (record s { now = s.now + 1 }, then_step stay (time_passes w refl), refl)
  | inr next ↦
      let (t, q, e, less) = fire s next in
      let (u, r, f) = tick n t (omega arith) in (u, prepend q r, f ∙ ap (λ (m : ℕ). m + 1) e)
]

-- From every state, and for every number of milliseconds, there is a run without a new toast in
-- which the clock gets that far.
pub time_goes_on : (k : ℕ) (s : State) → (t : State) × Quietly s t × (t.now ≡ s.now + k)
time_goes_on zero s = (s, stay, omega arith)
time_goes_on (suc k) s =
    let (t, r, e) = time_goes_on k s in
    let (u, q, f) = tick (weight t.now t.items + 1) t (omega arith) in (u, concat r q, omega arith)

-- No toast is ever stuck: after a toast was shown, and any run without another one, the run can be gone
-- on with, without another one, to a state in which no toast is left.
pub show_toast-ends :
    {s t : State} (message : String) (kind : ToastType)
    → Reach s
    → Quietly (show_toast message kind s) t
    → (u : State) × Quietly t u × (u.items ≡ [])
show_toast-ends {s} {t} message kind r q =
    let (u, rest, e) = time_goes_on (s.now + 3401) t in
    (u, rest, show_toast-vanish message kind r (concat q rest) (omega arith))
