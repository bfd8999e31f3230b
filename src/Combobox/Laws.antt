-- ===== src/Combobox/Laws.antt =====
-- What the events of a combobox do to the selection.
use drop_the_mic.Base.{
  ◌-◌, ◌≤◌, ◌≡◌, refl, ap, ◌∙◌, String, Bool, true, false, not, ◌&&◌, ◌||◌, Option, none, some,
  List, [], ◌∷◌, ◌++◌, length, get_elem?, if◌then◌else◌, ltb, ◌==◌, eq_refl, arith, Bool-cases, inl,
  inr, length-append, length-filter-le,
}
use drop_the_mic.Base.Sets.{
  has, without, IsDistinct, has-append, has-without, IsDistinct-without, IsDistinct-concat,
  fresh_of_distinct,
}
use drop_the_mic.Base.Text.{truthy}
use drop_the_mic.Combobox.{
  Props, State, toggle, remove, remove_found, remove_last, key_down, Event, click_outside, click,
  focus, type_search, press, choose, remove_tag, handle,
}

-- No option is selected twice, and at most one where only one may be.
abbrev pub IsProper : Props → State → Type 0
IsProper props st = IsDistinct st.value × (props.multi ≡ false → length st.value ≤ 1)

or_if : (a b : Bool) → (b || a) ≡ (if a then true else b)
or_if a b = ground arith

-- A click on an option, where several may be selected, changes whether it is selected and nothing
-- else of the selection. Where only one may be, it selects that one and closes the list.
pub handle-choose :
    (props : Props) (st : State) (item : String)
    → (props.multi ≡ true
        → (other : String)
        → has (handle props st (choose item)).value other
          ≡ (if item == other then not (has st.value item) else has st.value other))
      × (props.multi ≡ false
          → handle props st (choose item)
            ≡ record { is_open = false; search = ""; value = item ∷ [] })
unfolding handle toggle
handle-choose props st item = (
  λ m other. rw m (elim (Bool-cases (has st.value item)) [
    | inl e ↦ rw e (has-without item other st.value)
    | inr e ↦ rw e (added e other)
  ]),
  λ m. rw m,
)
  where
    added :
        has st.value item ≡ false
        → (other : String)
        → has (st.value ++ item ∷ []) other ≡ (if item == other then true else has st.value other)
    added e other = ground (arith, has-append st.value (item ∷ []) other)

without_fresh : (x : String) (s : List String) → has s x ≡ false → without x s ≡ s
without_fresh x [] h = refl
without_fresh x (y ∷ s) h = ground (arith, without_fresh x s)

without-concat : (x : String) (s : List String) → has s x ≡ false → without x (s ++ x ∷ []) ≡ s
without-concat x [] h = rw (eq_refl x) refl
without-concat x (y ∷ s) h = ground (arith, without-concat x s)

get_last :
    (s : List String) (x : String) → get_elem? (s ++ x ∷ []) (length (s ++ x ∷ []) - 1) ≡ some x
get_last s x = ap (get_elem? (s ++ x ∷ [])) index ∙ at_end s
  where
    index : length (s ++ x ∷ []) - 1 ≡ length s
    index = omega (arith, length-append s (x ∷ []))

    at_end : (l : List String) → get_elem? (l ++ x ∷ []) (length l) ≡ some x
    at_end [] = refl
    at_end (y ∷ l) = at_end l

last_removed :
    (st : State) (s : List String) (x : String)
    → st.value ≡ s ++ x ∷ []
    → has s x ≡ false
    → remove_last st ≡ record st { value = s }
unfolding remove_last
last_removed st s x e h =
    ap (λ l. remove_found st (get_elem? l (length l - 1))) e
    ∙ ap (remove_found st) (get_last s x)
    ∙ ap (λ l. record st { value = l }) (ap (without x) e ∙ without-concat x s h)

press_last :
    (props : Props) (st : State)
    → props.multi ≡ true
    → st.search ≡ ""
    → ltb 0 (length st.value) ≡ true
    → key_down props.multi "Backspace" st ≡ remove_last st
unfolding key_down
press_last props st m q v = ap (λ b. if b then remove_last st else st) all_hold
  where
    all_hold :
        ("Backspace" == "Backspace"
          && not (truthy st.search)
          && props.multi
          && ltb 0 (length st.value))
        ≡ true
    all_hold = rw (m, q, v) refl

-- The backspace key, in an empty search where several options may be selected, takes away exactly
-- the option that was selected last.
pub handle-press-last :
    (props : Props) (st : State) (s : List String) (x : String)
    → props.multi ≡ true
    → st.search ≡ ""
    → st.value ≡ s ++ x ∷ []
    → IsDistinct (s ++ x ∷ [])
    → handle props st (press "Backspace") ≡ record st { value = s }
unfolding handle
handle-press-last props st s x m q e d =
    press_last props st m q some_value ∙ last_removed st s x e (fresh_of_distinct s x [] d)
  where
    some_value : ltb 0 (length st.value) ≡ true
    some_value = rw e (ground (arith, length-append s (x ∷ [])))

IsProper-toggle :
    (props : Props) (st : State) (item : String)
    → IsProper props st
    → IsProper props (toggle props.multi item st)
unfolding toggle
IsProper-toggle props st item (d, one) = elim (Bool-cases props.multi) [
  | inl m ↦ rw m (elim (Bool-cases (has st.value item)) [
    | inl e ↦ rw e (IsDistinct-without item st.value d, λ n. absurd (true_is_not_false n))
    | inr e ↦ rw e (IsDistinct-concat st.value item d e, λ n. absurd (true_is_not_false n))
  ])
  | inr m ↦ rw m ((refl, tt), λ n. omega arith)
]
  where
    true_is_not_false : ◌≡◌ {A = Bool} true false → ⊥
    true_is_not_false q = cc

IsProper-remove :
    (props : Props) (st : State) (item : String)
    → IsProper props st
    → IsProper props (remove item st)
unfolding remove
IsProper-remove props st item (d, one) = (
  IsDistinct-without item st.value d,
  λ m. omega (arith, one m, length-filter-le (λ y. not (y == item)) st.value),
)

IsProper-remove_last :
    (props : Props) (st : State) → IsProper props st → IsProper props (remove_last st)
unfolding remove_last remove
IsProper-remove_last props st h = found (get_elem? st.value (length st.value - 1))
  where
    found : (o : Option String) → IsProper props (remove_found st o)
    found none = h
    found (some item) = IsProper-remove props st item h

IsProper-key_down :
    (props : Props) (st : State) (key : String)
    → IsProper props st
    → IsProper props (key_down props.multi key st)
unfolding key_down
IsProper-key_down props st key h = elim (Bool-cases (key == "Escape")) [
  | inl e ↦ rw e h
  | inr e ↦
      rw e
        (elim (Bool-cases (
          key == "Backspace" && not (truthy st.search) && props.multi && ltb 0 (length st.value))) [
            | inl b ↦ rw b (IsProper-remove_last props st h)
            | inr b ↦ rw b h
          ])
]

IsProper-handle :
    (props : Props) (st : State) (e : Event)
    → IsProper props st
    → IsProper props (handle props st e)
unfolding handle
IsProper-handle props st click_outside h = h
IsProper-handle props st click h = elim (Bool-cases props.disabled) [
  | inl e ↦ rw e h
  | inr e ↦ rw e h
]
IsProper-handle props st focus h = h
IsProper-handle props st (type_search s) h = h
IsProper-handle props st (press key) h = IsProper-key_down props st key h
IsProper-handle props st (choose item) h = IsProper-toggle props st item h
IsProper-handle props st (remove_tag item) h = IsProper-remove props st item h

abbrev pub run : Props → State → List Event → State
run props st [] = st
run props st (e ∷ rest) = run props (handle props st e) rest

-- Whatever happens, no option comes to be selected twice, and never more than one where only one
-- may be, if it is so at the start.
pub run-IsProper :
    (props : Props) (events : List Event) (st : State)
    → IsProper props st
    → IsProper props (run props st events)
run-IsProper props [] st h = h
run-IsProper props (e ∷ rest) st h =
    run-IsProper props rest (handle props st e) (IsProper-handle props st e h)
