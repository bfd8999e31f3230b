-- ===== src/Toast/Ids.antt =====
-- The ids of the toasts, which are the keys of the list that is rendered.
use drop_the_mic.Base.{
  ℕ, ◌+◌, ◌<◌, ◌≡◌, refl, Bool, List, [], ◌∷◌, ◌++◌, map, filter, All, arith, All-append,
  All-filter, All-map, Bool-cases, inl, inr,
}
use drop_the_mic.Toast.{
  Item, State, run_effect, mount, show_toast, remove_toast, hide, appear, frame_runs, timer_fires,
  done_fires, time_passes, Step, shows, quiet, Reach, here, next,
}
use drop_the_mic.Toast.Clock.{All-put, All-image}

-- Each id is smaller than those of the toasts below it.
abbrev pub IsRising : List Item → Type 0
IsRising [] = Unit
IsRising (i ∷ l) = All (λ j. i.toast.id < j.toast.id) l × IsRising l

abbrev pub IsUsed : State → Item → Type 0
IsUsed s i = i.toast.id < s.next_id

IsRising-filter : (p : Item → Bool) (l : List Item) → IsRising l → IsRising (filter p l)
IsRising-filter p [] h = tt
IsRising-filter p (i ∷ l) (a, h) = elim (Bool-cases (p i)) [
  | inl e ↦ rw e (All-filter (λ j. i.toast.id < j.toast.id) p l a, IsRising-filter p l h)
  | inr e ↦ rw e (IsRising-filter p l h)
]

IsRising-effect : (now : ℕ) (l : List Item) → IsRising l → IsRising (map (run_effect now) l)
IsRising-effect now [] h = tt
IsRising-effect now (i ∷ l) (a, h) = (
  All-image (λ j. i.toast.id < j.toast.id) (λ j. i.toast.id < j.toast.id) (run_effect now)
      (λ j p. p) l a,
  IsRising-effect now l h,
)

IsRising-append :
    (l : List Item) (i : Item)
    → All (λ j. j.toast.id < i.toast.id) l
    → IsRising l
    → IsRising (l ++ i ∷ [])
IsRising-append [] i b h = (tt, tt)
IsRising-append (j ∷ l) i (p, b) (a, h) =
    (All-append (λ k. j.toast.id < k.toast.id) l (i ∷ []) a (p, tt), IsRising-append l i b h)

-- The toast of an item stays what it is.
IsRising-put :
    (before : List Item) (i j : Item) (after : List Item)
    → i.toast ≡ j.toast
    → IsRising (before ++ i ∷ after)
    → IsRising (before ++ j ∷ after)
IsRising-put [] i j after e (a, h) = (rw (← e) a, h)
IsRising-put (k ∷ before) i j after e (a, h) = (
  All-put (λ m. k.toast.id < m.toast.id) before i j after (λ p. rw (← e) p) a,
  IsRising-put before i j after e h,
)

Step-IsRising :
    {s t : State}
    → Step s t
    → IsRising s.items × All (IsUsed s) s.items
    → IsRising t.items × All (IsUsed t) t.items
unfolding show_toast remove_toast
Step-IsRising {s} {t} (shows message kind q) (h, u) =
    let new : Item = mount (record { id = s.next_id; message = message; kind = kind }) in
    rw q (
      IsRising-effect s.now (s.items ++ new ∷ []) (IsRising-append s.items new u h),
      All-image (λ i. i.toast.id < s.next_id + 1) (λ i. i.toast.id < s.next_id + 1)
          (run_effect s.now) (λ i p. p) (s.items ++ new ∷ [])
          (All-append (λ i. i.toast.id < s.next_id + 1) s.items (new ∷ [])
            (All-map (λ i p. omega arith) s.items u) (omega arith, tt)),
    )
Step-IsRising {s} {t} (quiet (frame_runs before i after e f q)) (h, u) = rw q (
  IsRising-put before i (appear i) after refl (rw e at h),
  All-put (IsUsed s) before i (appear i) after (λ p. p) (rw e at u),
)
Step-IsRising {s} {t} (quiet (timer_fires before i after e d q)) (h, u) = rw q (
  IsRising-put before i (hide s.now i) after refl (rw e at h),
  All-put (IsUsed s) before i (hide s.now i) after (λ p. p) (rw e at u),
)
Step-IsRising {s} {t} (quiet (done_fires before i after e d q)) (h, u) = rw q (
  IsRising-effect s.now _ (IsRising-filter _ s.items h),
  All-image (IsUsed s) (IsUsed s) (run_effect s.now) (λ j p. p) _
      (All-filter (IsUsed s) _ s.items u),
)
Step-IsRising {s} {t} (quiet (time_passes w q)) (h, u) = rw q (h, u)

-- In every state that can be reached, the ids of the toasts rise from each to the next, so that no
-- two are the same, and the next id is larger than all of them.
pub Reach-IsRising : {s : State} → Reach s → IsRising s.items × All (IsUsed s) s.items
Reach-IsRising here = (tt, tt)
Reach-IsRising (next r st) = Step-IsRising st (Reach-IsRising r)
