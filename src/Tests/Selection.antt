-- ===== src/Tests/Selection.antt =====
-- The combobox, on concrete options.
use drop_the_mic.Base.{◌≡◌, refl, Bool, true, false, [], ◌∷◌}
use drop_the_mic.Combobox.{Props, State, press, choose, click}
use drop_the_mic.Combobox.Laws.{IsProper, run, run-IsProper}

abbrev several : Props
several = record {
  options = "a" ∷ "b" ∷ "c" ∷ [];
  multi = true;
  placeholder = "";
  disabled = false;
  loading = false;
}

abbrev two_chosen : State
two_chosen = record { is_open = true; search = ""; value = "a" ∷ "c" ∷ [] }

true_is_not_false : ◌≡◌ {A = Bool} true false → ⊥
true_is_not_false q = cc

two_chosen-IsProper : IsProper several two_chosen
two_chosen-IsProper = ((refl, (refl, tt)), λ m. absurd (true_is_not_false m))

run-IsProper_example :
    IsProper several
      (run several two_chosen (click ∷ choose "b" ∷ choose "a" ∷ press "Backspace" ∷ []))
run-IsProper_example =
    run-IsProper several (click ∷ choose "b" ∷ choose "a" ∷ press "Backspace" ∷ []) two_chosen
      two_chosen-IsProper
