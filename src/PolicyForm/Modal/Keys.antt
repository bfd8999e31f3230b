-- ===== src/PolicyForm/Modal/Keys.antt =====
-- The keys that are pressed in a combobox of the policy form. The combobox handles the key first, and
-- then the window's listener of the dialog.
use drop_the_mic.Base.{◌≡◌, refl, ◌↔◌, String, Bool, true, false, arith, eq_iff}
use drop_the_mic.Combobox
use drop_the_mic.Dialog
use drop_the_mic.PolicyForm.{initial, reset_form}
use drop_the_mic.PolicyForm.Modal.{State, handle_close}

-- The form with the combobox of its target namespaces, whose value the form holds.
pub record Focus : Type 0 where
  pub modal : State
  pub is_open : Bool
  pub search : String

abbrev pub box_of : Focus → Combobox.State
box_of s = record { is_open = s.is_open; search = s.search; value = s.modal.form.target_ns_list }

abbrev pub put_box : Focus → Combobox.State → Focus
put_box s box = record {
  modal = record s.modal { form = record s.modal.form { target_ns_list = box.value } };
  is_open = box.is_open;
  search = box.search;
}

unfoldable pub press : String → Focus → Focus
unfolding Combobox.key_down Combobox.remove_last Dialog.handle
press key s =
    let after = put_box s (Combobox.key_down true key (box_of s)) in
    record after {
      modal = Dialog.handle handle_close after.modal.is_open (Dialog.Event.press key) after.modal;
    }

handle-press :
    (key : String) (modal : State)
    → modal.is_open ≡ true
    → ((Dialog.handle handle_close modal.is_open (Dialog.Event.press key) modal).is_open ≡ false)
      ↔ (key ≡ "Escape")
unfolding handle_close Dialog.handle Dialog.closes
handle-press key modal e = ground (arith, eq_iff key "Escape", e)

handle-Escape :
    (modal : State)
    → modal.is_open ≡ true
    → (Dialog.handle handle_close modal.is_open (Dialog.Event.press "Escape") modal).form ≡ initial
unfolding handle_close reset_form Dialog.handle Dialog.closes
handle-Escape modal e = ground (arith, e)

-- Where the form is open, Escape is the only key that closes it from the combobox, and it always does:
-- also when the list of options is open, which it closes too. The form is then as it is at the start.
pub press-Escape :
    (key : String) (s : Focus)
    → s.modal.is_open ≡ true
    → (((press key s).modal.is_open ≡ false) ↔ (key ≡ "Escape"))
      × ((press "Escape" s).is_open ≡ false)
      × ((press "Escape" s).modal.form ≡ initial)
unfolding press Combobox.key_down Combobox.remove_last
press-Escape key s e = (
  handle-press key (put_box s (Combobox.key_down true key (box_of s))).modal e,
  refl,
  handle-Escape (put_box s (Combobox.key_down true "Escape" (box_of s))).modal e,
)
