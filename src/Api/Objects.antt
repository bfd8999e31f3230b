-- ===== src/Api/Objects.antt =====
-- JavaScript objects as the client uses them: reading a field, and the spread `{ ...a, ...b }`, which
-- keeps the place of a key that is there and appends one that is not. The order of keys that are
-- numbers, which JavaScript puts first, is left out.
use mathlib.Core.Option.{Option, none, some}
use drop_the_mic.Base.{
  ◌≡◌, refl, ◌∙◌, String, Bool, true, false, not, List, [], ◌∷◌, if◌then◌else◌, ◌==◌, eq_iff, arith,
  eqb,
}
use drop_the_mic.Base.Num.{int, nan, pos, negsuc}
use drop_the_mic.Base.Sets.{has, IsDistinct}
use drop_the_mic.Base.Text.{truthy}
use drop_the_mic.Api.{Json, null, bool, num, str, arr, obj, Members, no_members, member}

abbrev pub keys : Members → List String
keys no_members = []
keys (member k v rest) = k ∷ keys rest

-- `o[key]`; `none` for undefined.
abbrev pub field : String → Members → Option Json
field key no_members = none
field key (member k v rest) = let other = field key rest in if k == key then some v else other

-- `{ ...o, [key]: value }`
abbrev pub put : String → Json → Members → Members
put key value no_members = member key value no_members
put key value (member k v rest) =
    let other = member k v (put key value rest) in if k == key then member k value rest else other

-- `{ ...a, ...b }`
abbrev pub spread : Members → Members → Members
spread a no_members = a
spread a (member k v rest) = spread (put k v a) rest

unfoldable pub is_truthy : Json → Bool
is_truthy null = false
is_truthy (bool b) = b
is_truthy (num nan) = false
is_truthy (num (int (pos n))) = not (eqb n 0)
is_truthy (num (int (negsuc n))) = true
is_truthy (str s) = truthy s
is_truthy (arr items) = true
is_truthy (obj o) = true

-- `first ?? second`
abbrev pub or_json : Option Json → Option Json → Option Json
or_json none b = b
or_json (some v) b = some v

pub field-put :
    (key other : String) (value : Json) (o : Members)
    → field other (put key value o) ≡ (if key == other then some value else field other o)
field-put key other value no_members = refl
field-put key other value (member k v rest) =
    ground (arith, field-put key other value rest, eq_iff k key, eq_iff k other, eq_iff key other)

field_absent : (key : String) (o : Members) → has (keys o) key ≡ false → field key o ≡ none
field_absent key no_members h = refl
field_absent key (member k v rest) h = ground (arith, field_absent key rest)

spread_step :
    (k key : String) (v : Json) (a rest : Members)
    → has (keys rest) k ≡ false
    → or_json (field key rest) (field key (put k v a))
      ≡ or_json (if k == key then some v else field key rest) (field key a)
spread_step k key v a rest h =
    ground (arith, field-put k key v a, field_absent k rest h, eq_iff k key)

-- A field of a spread is that of the second object where it has one, and otherwise that of the first.
pub field-spread :
    (key : String) (a b : Members)
    → IsDistinct (keys b)
    → field key (spread a b) ≡ or_json (field key b) (field key a)
field-spread key a no_members d = refl
field-spread key a (member k v rest) (h, d) =
    field-spread key (put k v a) rest d ∙ spread_step k key v a rest h
