-- ===== src/Combobox.antt =====
-- ui/src/components/Combobox.tsx: the selection of one or several options. `value` is a property
-- that the parent holds: `onChange` replaces it. `lower` stands for `toLowerCase`. Styling and the
-- focus of the input are left out; the browser sends no event to an input that is disabled.
pub mod Laws
use drop_the_mic.Base.{
  ℕ, ◌-◌, String, Bool, true, false, not, ◌&&◌, Option, none, some, List, [], ◌∷◌, ◌++◌, map,
  filter, length, get_elem?, if◌then◌else◌, ltb, eqb, ◌==◌,
}
use drop_the_mic.Base.Sets.{has, without}
use drop_the_mic.Base.Text.{truthy, or_else, includes}

pub record Props : Type 0 where
  pub options : List String
  pub multi : Bool
  pub placeholder : String
  pub disabled : Bool
  pub loading : Bool

pub record State : Type 0 where
  pub is_open : Bool
  pub search : String
  pub value : List String

-- The options that the search leaves.
unfoldable pub shown_options : (String → String) → List String → String → List String
shown_options lower options search = filter (λ o. includes (lower o) (lower search)) options

unfoldable pub toggle : Bool → String → State → State
toggle true item st = record st {
  value = if has st.value item then without item st.value else st.value ++ item ∷ [];
}
toggle false item st = record { is_open = false; search = ""; value = item ∷ [] }

unfoldable pub remove : String → State → State
remove item st = record st { value = without item st.value }

abbrev pub remove_found : State → Option String → State
remove_found st none = st
remove_found st (some item) = record st { value = without item st.value }

-- `remove(value[value.length - 1])`, where there is such a value.
unfoldable pub remove_last : State → State
remove_last st = remove_found st (get_elem? st.value (length st.value - 1))

unfoldable pub key_down : Bool → String → State → State
unfolding remove_last
key_down multi key st =
    if key == "Escape"
    then record st { is_open = false; search = "" }
    else if key == "Backspace" && not (truthy st.search) && multi && ltb 0 (length st.value)
    then remove_last st
    else st

pub data Event : Type 0 where
  click_outside click focus : Event
  type_search press choose remove_tag : String → Event

unfoldable pub handle : Props → State → Event → State
unfolding toggle remove key_down
handle props st click_outside = record st { is_open = false; search = "" }
handle props st click = if props.disabled then st else record st { is_open = true }
handle props st focus = record st { is_open = true }
handle props st (type_search s) = record st { search = s; is_open = true }
handle props st (press key) = key_down props.multi key st
handle props st (choose item) = toggle props.multi item st
handle props st (remove_tag item) = remove item st

pub data Dropdown : Type 0 where
  message : String → Dropdown
  choices : List (String × Bool) → Dropdown

-- What is shown: the tags, the text of the input and its placeholder, and the list if it is open.
pub record View : Type 0 where
  pub tags : List String
  pub text : String
  pub placeholder : String
  pub dropdown : Option Dropdown

dropdown_of : (String → String) → Props → State → Dropdown
dropdown_of lower props st =
    let shown = shown_options lower props.options st.search in
    if props.loading
    then message "Loading..."
    else if eqb (length shown) 0
    then message (if truthy st.search then "No matches" else "No options")
    else choices (map (λ o. (o, has st.value o)) shown)

abbrev first_text : List String → String
first_text [] = ""
first_text (v ∷ rest) = v

unfoldable pub view : (String → String) → Props → State → View
unfolding dropdown_of
view lower props st = record {
  tags = if props.multi then st.value else [];
  text = if st.is_open then st.search else if props.multi then "" else first_text st.value;
  placeholder =
      if eqb (length st.value) 0
      then or_else props.placeholder "Select..."
      else if props.multi
      then "Search..."
      else "";
  dropdown = if st.is_open then some (dropdown_of lower props st) else none;
}
