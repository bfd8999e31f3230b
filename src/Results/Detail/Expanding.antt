-- ===== src/Results/Detail/Expanding.antt =====
-- Expanding and collapsing the checks of a result.
use drop_the_mic.Base.{
  ◌≡◌, ◌↔◌, refl, sym, ap, ◌∙◌, String, Bool, true, false, not, ◌||◌, List, [], ◌∷◌, map, length,
  eqb_iff, if◌then◌else◌, ◌==◌, arith, eq_iff, Bool-cases, Option-cases, suc, inl, inr,
}
use drop_the_mic.Base.Sets.{
  has, set_of, IsDistinct, has-without, has-add, has-set_of, IsDistinct-without, IsDistinct-add,
  length-set_of_iff,
}
use drop_the_mic.Api.{CheckResult, ChecklistResult}
use drop_the_mic.Results.Detail.{
  check_ids, check_count, toggle, all_expanded, expand_all, expand_label,
}

or_if : (a b : Bool) → (a || b) ≡ (if a then true else b)
or_if a b = ground arith

-- A click on a check changes whether that check is expanded, and nothing else; the set stays a set.
pub has-toggle :
    (id : String) (expanded : List String)
    → ((other : String)
        → has (toggle id expanded) other
          ≡ (if id == other then not (has expanded id) else has expanded other))
      × (IsDistinct expanded → IsDistinct (toggle id expanded))
unfolding toggle
has-toggle id expanded = (
  λ other. elim (Bool-cases (has expanded id)) [
    | inl e ↦ rw e (has-without id other expanded)
    | inr e ↦ rw e (rw e at (has-add id other expanded) ∙ or_if (id == other) (has expanded other))
  ],
  λ d. elim (Bool-cases (has expanded id)) [
    | inl e ↦ rw e (IsDistinct-without id expanded d)
    | inr e ↦ rw e (rw e at (IsDistinct-add id expanded d))
  ],
)

length-map_id : (checks : List CheckResult) → length (map (λ c. c.id) checks) ≡ length checks
length-map_id [] = refl
length-map_id (c ∷ checks) = ap suc (length-map_id checks)

length-check_ids : (r : ChecklistResult) → length (check_ids r) ≡ check_count r
length-check_ids r = elim (Option-cases r.spec.checks) [
  | inl e ↦ rw e
  | inr (checks, e) ↦ rw e (length-map_id checks)
]

all_expanded-set_of_iff :
    (r : ChecklistResult)
    → (all_expanded r (set_of (check_ids r)) ≡ true) ↔ IsDistinct (check_ids r)
all_expanded-set_of_iff r = (
  λ e. (length-set_of_iff (check_ids r)).0 ((eqb_iff _ _).0 e ∙ sym (length-check_ids r)),
  λ d. (eqb_iff _ _).1 ((length-set_of_iff (check_ids r)).1 d ∙ length-check_ids r),
)

collapse_iff :
    (b : Bool)
    → (◌≡◌ {A = String} (if b then "Collapse All" else "Expand All") "Collapse All") ↔ (b ≡ true)
collapse_iff b = ground (arith, eq_iff "Collapse All" "Expand All")

-- Where the button reads "Expand All" and is clicked, it reads "Collapse All" afterwards exactly if
-- no two checks of the result have one id.
pub expand_all-label_iff :
    (r : ChecklistResult) (expanded : List String)
    → all_expanded r expanded ≡ false
    → (expand_label r (expand_all r expanded) ≡ "Collapse All") ↔ IsDistinct (check_ids r)
unfolding expand_all expand_label
expand_all-label_iff r expanded h = rw h (
  λ e. (all_expanded-set_of_iff r).0 ((collapse_iff _).0 e),
  λ d. (collapse_iff _).1 ((all_expanded-set_of_iff r).1 d),
)

-- Where not all is expanded, a click on the button expands every check; if the checks' ids are
-- distinct, a second click collapses them all.
pub expand_all_twice :
    (r : ChecklistResult) (expanded : List String)
    → all_expanded r expanded ≡ false
    → ((id : String) → has (expand_all r expanded) id ≡ has (check_ids r) id)
      × (IsDistinct (check_ids r) → expand_all r (expand_all r expanded) ≡ [])
unfolding expand_all
expand_all_twice r expanded h =
    rw h (λ id. has-set_of (check_ids r) id, λ d. rw ((all_expanded-set_of_iff r).1 d))
