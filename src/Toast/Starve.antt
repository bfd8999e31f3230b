-- ===== src/Toast/Starve.antt =====
-- Toasts that come often: each one that is shown starts the timers of all the others again.
use mathlib.Core.Option.{none, some}
use drop_the_mic.Base.{
  ℕ, suc, ◌+◌, ◌≤◌, ◌<◌, ◌≡◌, refl, sym, ap, ◌∙◌, String, List, [], ◌∷◌, ◌++◌, map, All, arith,
  All-append, All-map, length, length-append,
}
use drop_the_mic.Toast.{
  ToastType, Item, State, initial, run_effect, mount, show_toast, appear, IsDue, Quiet, frame_runs,
  timer_fires, done_fires, time_passes,
}
use drop_the_mic.Toast.Clock.{All-split, All-put, All-image}

-- A run in which less than three seconds pass from each toast to the next; the last one was shown at
-- the time `last`.
pub data Often : ℕ → State → Type 0 where
  first :
      (message : String) (kind : ToastType) (t : State)
      → t ≡ show_toast message kind initial
      → Often 0 t
  again :
      (message : String) (kind : ToastType) (last now : ℕ) (s t : State)
      → Often last s
      → now ≡ s.now
      → t ≡ show_toast message kind s
      → Often now t
  goes_on : (last : ℕ) (s t : State) → Often last s → Quiet s t → t.now < last + 3000 → Often last t

-- The item is on the screen, and its timer was started when the last toast was shown.
abbrev IsFresh : ℕ → Item → Type 0
IsFresh last i = (i.done ≡ none) × (i.timer ≡ some (last + 3000))

record IsCrowded (last : ℕ) (s : State) : Type 0 where
  recent : s.now < last + 3000
  fresh : All (IsFresh last) s.items
  count : length s.items ≡ s.next_id

length-map : (f : Item → Item) (l : List Item) → length (map f l) ≡ length l
length-map f [] = refl
length-map f (i ∷ l) = ap suc (length-map f l)

length-put :
    (before : List Item) (i j : Item) (after : List Item)
    → length (before ++ i ∷ after) ≡ length (before ++ j ∷ after)
length-put before i j after =
    omega (arith, length-append before (i ∷ after), length-append before (j ∷ after))

done_none : (last : ℕ) (l : List Item) → All (IsFresh last) l → All (λ i. i.done ≡ none) l
done_none last l h = All-map (λ i p. p.0) l h

IsCrowded-show_toast :
    (message : String) (kind : ToastType) (s : State)
    → All (λ i. i.done ≡ none) s.items
    → length s.items ≡ s.next_id
    → IsCrowded s.now (show_toast message kind s)
unfolding show_toast
IsCrowded-show_toast message kind s h e = record {
  recent = omega arith;
  fresh =
      All-image (λ i. i.done ≡ none) (IsFresh s.now) (run_effect s.now) (λ i p. (p, refl)) _
        (All-append (λ i. i.done ≡ none) s.items _ h (refl, tt));
  count = length-map (run_effect s.now) _ ∙ added;
}
  where
    new : Item
    new = mount (record { id = s.next_id; message = message; kind = kind })

    added : length (s.items ++ new ∷ []) ≡ s.next_id + 1
    added = omega (arith, length-append s.items (new ∷ []))

fresh_at :
    (last : ℕ) (before : List Item) (i : Item) (after : List Item)
    → All (IsFresh last) (before ++ i ∷ after)
    → IsFresh last i
fresh_at last before i after h = (All-split (IsFresh last) before i after h).1.0

fresh_ahead :
    (last now : ℕ) (i : Item)
    → now < last + 3000
    → i.timer ≡ some (last + 3000)
    → IsDue now i.timer
    → ⊥
fresh_ahead last now i b e d = let due : last + 3000 ≤ now = rw e at d in omega arith

IsCrowded-Quiet :
    {s t : State} (last : ℕ) → Quiet s t → t.now < last + 3000 → IsCrowded last s → IsCrowded last t
IsCrowded-Quiet {s} {t} last (frame_runs before i after e f q) b h = rw q (record {
  recent = h.recent;
  fresh = All-put (IsFresh last) before i (appear i) after (λ p. p) (rw e at h.fresh);
  count = length-put before (appear i) i after ∙ ap length (sym e) ∙ h.count;
})
IsCrowded-Quiet {s} {t} last (timer_fires before i after e d q) b h =
    absurd (fresh_ahead last s.now i h.recent (fresh_at last before i after (rw e at h.fresh)).1 d)
IsCrowded-Quiet {s} {t} last (done_fires before i after e d q) b h =
    absurd (rw ((fresh_at last before i after (rw e at h.fresh)).0) at d)
IsCrowded-Quiet {s} {t} last (time_passes w q) b h =
    let bound : s.now + 1 < last + 3000 = rw q at b in
    rw q (record { recent = bound; fresh = h.fresh; count = h.count })

Often-IsCrowded : {last : ℕ} {s : State} → Often last s → IsCrowded last s
Often-IsCrowded (first message kind t q) = rw q (IsCrowded-show_toast message kind initial tt refl)
Often-IsCrowded (again message kind last now s t r e q) =
    let h = Often-IsCrowded r in
    rw (e, q) (IsCrowded-show_toast message kind s (done_none last s.items h.fresh) h.count)
Often-IsCrowded (goes_on last s t r q b) = IsCrowded-Quiet last q b (Often-IsCrowded r)

-- As long as less than three seconds pass from each toast to the next, none is ever taken away:
-- there are as many toasts on the screen as were shown.
pub Often-length : {last : ℕ} {s : State} → Often last s → length s.items ≡ s.next_id
Often-length r = (Often-IsCrowded r).count
