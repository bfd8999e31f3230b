-- ===== src/Base/Text/Decimal.antt =====
-- A number in decimal digits, as a template prints it, and how to read it back.
use Prim.Native.Nat.{ℕ, zero, suc, ◌+◌, ◌-◌, ◌*◌, ◌/◌, ◌%◌, ◌<◌}
use Prim.Native.Char.{Char, code}
use Prim.Native.String.{String, [], ◌∷◌, ◌++◌}
use mathlib.Core.Path.{sym, ◌≡◌, refl, ap, ◌∙◌}
use mathlib.Core.Logic.{inl, inr}
use mathlib.Core.Bool.{Bool, ◌&&◌}
use native.Mathlib.Omega.{arith}
use text.Mathlib.TextLemmas.{nil-append, cons-append, append_assoc}
use drop_the_mic.Base.Tests.{if◌then◌else◌, leb, ltb, ltb→lt, Bool-cases}
use drop_the_mic.Base.Num.{ℤ, pos, negsuc, Number, nan, int}

digit : ℕ → Char
digit zero = "0"
digit (suc zero) = "1"
digit (suc (suc zero)) = "2"
digit (suc (suc (suc zero))) = "3"
digit (suc (suc (suc (suc zero)))) = "4"
digit (suc (suc (suc (suc (suc zero))))) = "5"
digit (suc (suc (suc (suc (suc (suc zero)))))) = "6"
digit (suc (suc (suc (suc (suc (suc (suc zero))))))) = "7"
digit (suc (suc (suc (suc (suc (suc (suc (suc zero)))))))) = "8"
digit _ = "9"

digits_fuel : ℕ → ℕ → String
digits_fuel zero n = []
digits_fuel (suc f) n =
    let more = digits_fuel f (n / 10) ++ digit (n % 10) ∷ [] in
    if ltb n 10 then digit n ∷ [] else more

-- The fuel `n + 1` is enough, since `n / 10 < n` for every n > 0.
unfoldable pub decimal : ℕ → String
unfolding digit digits_fuel
decimal n = digits_fuel (suc n) n

unfoldable pub show_int : ℤ → String
unfolding decimal
show_int (pos n) = decimal n
show_int (negsuc n) = "-" ++ decimal (suc n)

-- `${x}` for a number.
unfoldable pub show_number : Number → String
unfolding show_int
show_number (int a) = show_int a
show_number nan = "NaN"

abbrev pub is_digit : Char → Bool
is_digit c = leb b'0' (code c) && leb (code c) b'9'

-- Reads the digits at the front of a text, after the number that was read so far.
pub record Reading : Type 0 where
  pub value : ℕ
  pub rest : String

abbrev pub read_digits : ℕ → String → Reading
read_digits n [] = record { value = n; rest = [] }
read_digits n (c ∷ s) =
    let more = read_digits (n * 10 + (code c - b'0')) s in
    if is_digit c then more else record { value = n; rest = c ∷ s }

code-digit : (n : ℕ) → n < 10 → code (digit n) ≡ n + b'0'
unfolding digit
code-digit zero h = refl
code-digit (suc zero) h = refl
code-digit (suc (suc zero)) h = refl
code-digit (suc (suc (suc zero))) h = refl
code-digit (suc (suc (suc (suc zero)))) h = refl
code-digit (suc (suc (suc (suc (suc zero))))) h = refl
code-digit (suc (suc (suc (suc (suc (suc zero)))))) h = refl
code-digit (suc (suc (suc (suc (suc (suc (suc zero))))))) h = refl
code-digit (suc (suc (suc (suc (suc (suc (suc (suc zero)))))))) h = refl
code-digit (suc (suc (suc (suc (suc (suc (suc (suc (suc zero))))))))) h = refl
code-digit (suc (suc (suc (suc (suc (suc (suc (suc (suc (suc n)))))))))) h = absurd (omega arith)

read_digits-digit :
    (k n : ℕ) (s : String) → n < 10 → read_digits k (digit n ∷ s) ≡ read_digits (k * 10 + n) s
read_digits-digit k n s h = ground (arith, code-digit n h)

value_congr : (m n : ℕ) (s : String) → m ≡ n → read_digits m s ≡ read_digits n s
value_congr m n s e = ap (λ k. read_digits k s) e

read_digits-digits_fuel :
    (f n : ℕ) (s : String) → n < f → read_digits 0 (digits_fuel f n ++ s) ≡ read_digits n s
unfolding digits_fuel
read_digits-digits_fuel zero n s h = elim h [ ]
read_digits-digits_fuel (suc f) n s h = elim (Bool-cases (ltb n 10)) [
  | inl e ↦
      rw (e, cons-append, nil-append)
        (read_digits-digit 0 n s (ltb→lt n 10 e) ∙ value_congr (0 * 10 + n) n s (omega arith))
  | inr e ↦
      rw (e, append_assoc, cons-append, nil-append)
        (read_digits-digits_fuel f (n / 10) (digit (n % 10) ∷ s) (ground arith)
          ∙ read_digits-digit (n / 10) (n % 10) s (omega arith)
          ∙ value_congr (n / 10 * 10 + n % 10) n s (omega arith))
]

-- What `decimal` prints is read back, whatever stands behind it that is not a digit.
pub read_digits-decimal : (n : ℕ) (s : String) → read_digits 0 (decimal n ++ s) ≡ read_digits n s
unfolding decimal
read_digits-decimal n s = read_digits-digits_fuel (suc n) n s (omega arith)

-- Two numbers that are printed alike are equal.
pub decimal_inj : (m n : ℕ) → decimal m ≡ decimal n → m ≡ n
decimal_inj m n e =
    ap (λ r. r.value)
      (sym (read_digits-decimal m [])
        ∙ ap (λ s. read_digits 0 (s ++ [])) e
        ∙ read_digits-decimal n [])
