-- ===== src/PolicyForm/Checks.antt =====
-- Editing the list of checks in the policy form.
use mathlib.Core.Option
use drop_the_mic.Base.{
  ℕ, zero, suc, ◌+◌, ◌≤◌, ◌<◌, ◌≡◌, refl, ap, String, false, List, [], ◌∷◌, ◌++◌, length, get_elem?,
  take, drop, if◌then◌else◌, leb, eqb, arith, length-append, length-take, length-drop, Bool-cases,
  inl, inr,
}
use drop_the_mic.Api.{CheckItem}
use drop_the_mic.PolicyForm.{
  new_check, CheckField, assign, add_check, filter_ne, remove_check, map_at, update_check,
}

filter_ne_past : (i idx : ℕ) (checks : List CheckItem) → idx < i → filter_ne i idx checks ≡ checks
unfolding filter_ne
filter_ne_past i idx [] h = refl
filter_ne_past i idx (c ∷ cs) h = ground (arith, filter_ne_past (i + 1) idx cs)

filter_ne-take-drop :
    (i k : ℕ) (checks : List CheckItem)
    → filter_ne i (i + k) checks ≡ take k checks ++ drop (suc k) checks
unfolding filter_ne
filter_ne-take-drop i zero [] = refl
filter_ne-take-drop i (suc k) [] = refl
filter_ne-take-drop i zero (c ∷ cs) = ground (arith, filter_ne_past (i + 1) (i + 0) cs)
filter_ne-take-drop i (suc k) (c ∷ cs) =
    let e : i + suc k ≡ (i + 1) + k = omega arith in
    rw e (ground (arith, filter_ne-take-drop (i + 1) k cs))

-- Removing a check takes out the one at the index and keeps the others in their order, and the last
-- check that is left cannot be removed.
pub remove_check-take-drop :
    (idx : ℕ) (checks : List CheckItem)
    → remove_check idx checks
      ≡ (if leb (length checks) 1 then checks else take idx checks ++ drop (idx + 1) checks)
unfolding remove_check
remove_check-take-drop idx checks =
    let e : 0 + idx ≡ idx = omega arith in
    let s : idx + 1 ≡ suc idx = omega arith in
    ap (λ l. if leb (length checks) 1 then checks else l)
      (rw s (rw e at (filter_ne-take-drop 0 idx checks)))

get_elem?-map_at :
    (i idx j : ℕ) (field : CheckField) (value : String) (checks : List CheckItem)
    → get_elem? (map_at i idx field value checks) j ≡ (
        if eqb (i + j) idx
        then Option.map (assign field value) (get_elem? checks j)
        else get_elem? checks j)
unfolding map_at
get_elem?-map_at i idx j field value [] = ground arith
get_elem?-map_at i idx zero field value (c ∷ cs) =
    let e : i + 0 ≡ i = omega arith in rw e (ground arith)
get_elem?-map_at i idx (suc j) field value (c ∷ cs) =
    let e : i + suc j ≡ (i + 1) + j = omega arith in
    rw e (get_elem?-map_at (i + 1) idx j field value cs)

length-map_at :
    (i idx : ℕ) (field : CheckField) (value : String) (checks : List CheckItem)
    → length (map_at i idx field value checks) ≡ length checks
unfolding map_at
length-map_at i idx field value [] = refl
length-map_at i idx field value (c ∷ cs) = ap suc (length-map_at (i + 1) idx field value cs)

-- An edit of a check assigns the field of the check at the index, and changes no other check and
-- not their number.
pub get_elem?-update_check :
    (idx j : ℕ) (field : CheckField) (value : String) (checks : List CheckItem)
    → (get_elem? (update_check idx field value checks) j ≡ (
        if eqb j idx
        then Option.map (assign field value) (get_elem? checks j)
        else get_elem? checks j))
      × (length (update_check idx field value checks) ≡ length checks)
unfolding update_check
get_elem?-update_check idx j field value checks =
    let e : 0 + j ≡ j = omega arith in
    (rw e at (get_elem?-map_at 0 idx j field value checks), length-map_at 0 idx field value checks)

-- The edits of the list that the form offers.
pub data Edit : Type 0 where
  add : Edit
  remove : ℕ → Edit
  update : ℕ → CheckField → String → Edit

abbrev pub edit : List CheckItem → Edit → List CheckItem
edit checks add = add_check checks
edit checks (remove idx) = remove_check idx checks
edit checks (update idx field value) = update_check idx field value checks

abbrev pub edit_all : List CheckItem → List Edit → List CheckItem
edit_all checks [] = checks
edit_all checks (e ∷ rest) = edit_all (edit checks e) rest

length-remove_check :
    (idx : ℕ) (checks : List CheckItem) → 1 ≤ length checks → 1 ≤ length (remove_check idx checks)
length-remove_check idx checks h =
    rw (remove_check-take-drop idx checks) (elim (Bool-cases (leb (length checks) 1)) [
      | inl e ↦ rw e h
      | inr e ↦ rw e (shorter (more (length checks) e))
    ])
  where
    more : (n : ℕ) → leb n 1 ≡ false → 1 < n
    more n e = ground arith

    shorter : 1 < length checks → 1 ≤ length (take idx checks ++ drop (idx + 1) checks)
    shorter k = omega (
      arith,
      length-append (take idx checks) (drop (idx + 1) checks),
      length-take idx checks,
      length-drop (idx + 1) checks,
    )

length-edit : (checks : List CheckItem) (e : Edit) → 1 ≤ length checks → 1 ≤ length (edit checks e)
unfolding add_check update_check
length-edit checks add h = omega (arith, length-append checks (new_check (length checks + 1) ∷ []))
length-edit checks (remove idx) h = length-remove_check idx checks h
length-edit checks (update idx field value) h =
    omega (arith, length-map_at 0 idx field value checks)

-- Whatever edits are made, a list of checks that is not empty stays so.
pub length-edit_all :
    (edits : List Edit) (checks : List CheckItem)
    → 1 ≤ length checks
    → 1 ≤ length (edit_all checks edits)
length-edit_all [] checks h = h
length-edit_all (e ∷ rest) checks h = length-edit_all rest (edit checks e) (length-edit checks e h)
