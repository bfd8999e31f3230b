-- ===== src/Results/Session.antt =====
-- The page that a session is on. While the server's results stay what they are, every action leaves
-- the page in range; when they become fewer, the page can be left behind.
use drop_the_mic.Base.{
  ℕ, ◌+◌, ◌-◌, ◌≤◌, ◌<◌, ◌≡◌, refl, ap, ◌∙◌, String, false, not, ◌||◌, none, some, List, [], ◌∷◌,
  arith, length, ◌⊎◌, Bool-cases, inl, inr,
}
use drop_the_mic.Base.Num.{ℤ, Number}
use drop_the_mic.Api.{ChecklistResult}
use drop_the_mic.Results.{
  State, initial, Action, type_search, choose_policy, choose_type, choose_verdict, previous, next,
  back, select, act, filtered, total_pages, has_pager, previous_disabled, next_disabled,
}
use drop_the_mic.Results.Pages.{length-paged}
use drop_the_mic.Results.View.{table, content, pager, list, or_detail, subtitle, screen}

-- The page exists, or it is the first.
abbrev pub IsInRange : ℕ → State → Type 0
IsInRange pages st = (st.page ≡ 0) ⊎ (st.page < pages)

step_back : (page pages : ℕ) → (page ≡ 0) ⊎ (page < pages) → (page - 1 ≡ 0) ⊎ (page - 1 < pages)
step_back page pages h = omega arith

step_forth :
    (page pages : ℕ)
    → (not (has_pager pages) || next_disabled page pages) ≡ false
    → page + 1 < pages
unfolding has_pager next_disabled
step_forth page pages e = ground arith

module _ (parse_date : String → Number) (lower : String → String)
    (results : List ChecklistResult) where
  abbrev pub pages_of : State → ℕ
  pages_of st = total_pages (length (filtered parse_date lower st results))

  -- A session on the results: each action is taken on the screen that the one before it left.
  pub run : State → List Action → State
  run st [] = st
  run st (a ∷ rest) = run (act (pages_of st) st a) rest

  act-IsInRange :
      (st : State) (a : Action)
      → IsInRange (pages_of st) st
      → IsInRange (pages_of (act (pages_of st) st a)) (act (pages_of st) st a)
  unfolding act filtered
  act-IsInRange st (type_search s) h = inl refl
  act-IsInRange st (choose_policy s) h = inl refl
  act-IsInRange st (choose_type s) h = inl refl
  act-IsInRange st (choose_verdict s) h = inl refl
  act-IsInRange st previous h =
      elim (Bool-cases (not (has_pager (pages_of st)) || previous_disabled st.page)) [
        | inl e ↦ rw e h
        | inr e ↦ rw e (step_back st.page (pages_of st) h)
      ]
  act-IsInRange st next h =
      elim (Bool-cases (not (has_pager (pages_of st)) || next_disabled st.page (pages_of st))) [
        | inl e ↦ rw e h
        | inr e ↦ rw e (inr (step_forth st.page (pages_of st) e))
      ]
  act-IsInRange st (select r) h = h
  act-IsInRange st back h = h

  pub run-IsInRange :
      (actions : List Action) (st : State)
      → IsInRange (pages_of st) st
      → IsInRange (pages_of (run st actions)) (run st actions)
  unfolding run
  run-IsInRange [] st h = h
  run-IsInRange (a ∷ rest) st h = run-IsInRange rest _ (act-IsInRange st a h)

  -- Along every sequence of actions on unchanged results, the page is one that exists, or the
  -- first.
  pub run-initial-IsInRange :
      (actions : List Action) → IsInRange (pages_of (run initial actions)) (run initial actions)
  run-initial-IsInRange actions = run-IsInRange actions initial (inl refl)

one_page : (n : ℕ) → 0 < n → n ≤ 20 → total_pages n ≡ 1
unfolding total_pages
one_page n h k = omega arith

content_stranded :
    (parse_date : String → Number) (now : ℤ) (page : ℕ) (results shown : List ChecklistResult)
    → 0 < page
    → 0 < length shown
    → length shown ≤ 20
    → content parse_date now page results shown ≡ table [] none
unfolding content pager has_pager
content_stranded parse_date now page results shown h k l =
    let one = one_page (length shown) k l in
    rw ((length-paged page shown).1 (omega arith), one) (ground arith)

-- While no result is selected, when a refresh leaves between 1 and 20 of the results that the
-- filters let through, and the page is not the first, the screen is a table with no row and no
-- pager, and the two actions on the page no longer change anything.
pub screen_stranded :
    (parse_date : String → Number) (lower : String → String) (now : ℤ) (st : State)
    (results : List ChecklistResult)
    → st.selected ≡ none
    → 0 < st.page
    → 0 < length (filtered parse_date lower st results)
    → length (filtered parse_date lower st results) ≤ 20
    → let shown = filtered parse_date lower st results in
      (screen parse_date lower now st (some results)
        ≡ list (subtitle (length shown)) (table [] none))
      × (act (pages_of parse_date lower results st) st previous ≡ st)
      × (act (pages_of parse_date lower results st) st next ≡ st)
unfolding screen act has_pager
screen_stranded parse_date lower now st results sel h k l =
    let shown = filtered parse_date lower st results in
    let one = one_page (length shown) k l in
    (
      ap
            (λ o.
              or_detail o
                (list (subtitle (length shown)) (content parse_date now st.page results shown)))
            sel
          ∙ ap (list (subtitle (length shown)))
              (content_stranded parse_date now st.page results shown h k l),
      rw one,
      rw one,
    )
