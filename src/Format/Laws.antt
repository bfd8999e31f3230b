-- ===== src/Format/Laws.antt =====
-- What the texts of ui/src/utils/format.ts say.
use Prim.Native.String.{[], ◌∷◌}
use mathlib.Core.Option.{some-injective}
use text.Mathlib.TextLemmas.{cons-append, nil-append}
use drop_the_mic.Base.{
  ℕ, ◌+◌, ◌-◌, ◌*◌, ◌/◌, ◌%◌, ◌<◌, ◌≡◌, ◌↔◌, sym, ap, ◌∙◌, String, Option, none, some, arith, ltb,
  if◌then◌else◌, Bool-cases, inl, inr, ltb→lt, true, false,
}
use drop_the_mic.Base.Num.{
  is_below, is_below_pos, is_below_negsuc, ℤ, pos, Number, nan, negsuc, int, ◌-ℤ◌,
}
use drop_the_mic.Base.Text.{◌<>◌}
use drop_the_mic.Base.Text.Decimal.{
  decimal, show_int, show_number, read_digits, read_digits-decimal,
}
use drop_the_mic.Format.{ago, time_ago, format_duration}

-- The age of a date, in milliseconds, in the largest unit of which it holds at least one.
abbrev pub age_text : ℕ → String
age_text age =
    if ltb age 60000
    then "just now"
    else if ltb age 3600000
    then decimal (age / 60000) <> "m ago"
    else if ltb age 86400000
    then decimal (age / 3600000) <> "h ago"
    else decimal (age / 86400000) <> "d ago"

to_hours : (n : ℕ) → n / 60000 / 60 ≡ n / 3600000
to_hours n = omega arith

to_days : (n : ℕ) → n / 3600000 / 24 ≡ n / 86400000
to_days n = omega arith

minute_test : (n : ℕ) → ltb (n / 60000) 1 ≡ ltb n 60000
minute_test n = ground arith

hour_test : (n : ℕ) → ltb (n / 60000) 60 ≡ ltb n 3600000
hour_test n = ground arith

day_test : (n : ℕ) → ltb (n / 3600000) 24 ≡ ltb n 86400000
day_test n = ground arith

ago-age_text : (age : ℕ) → ago (int (pos age)) ≡ age_text age
unfolding ago show_number show_int
ago-age_text age = simp (is_below_pos, to_hours, to_days, minute_test, hour_test, day_test)

sub_of_add : (date age : ℕ) → pos (date + age) -ℤ pos date ≡ pos age
sub_of_add date age = ground arith

time_ago_past :
    (parse_date : String → Number) (now date age : ℕ) (s : String)
    → parse_date s ≡ int (pos date)
    → now ≡ date + age
    → time_ago parse_date (pos now) s ≡ age_text age
unfolding time_ago
time_ago_past parse_date now date age s e h =
    rw (e, h) (ap (λ d. ago (int d)) (sub_of_add date age) ∙ ago-age_text age)

ago_negsuc : (n : ℕ) → ago (int (negsuc n)) ≡ "just now"
unfolding ago
ago_negsuc n = rw (is_below_negsuc (n / 60000) 1 (omega arith))

sub_of_lt : (now date : ℕ) → now < date → pos now -ℤ pos date ≡ negsuc (date - now - 1)
sub_of_lt now date h = ground arith

time_ago_future :
    (parse_date : String → Number) (now date : ℕ) (s : String)
    → parse_date s ≡ int (pos date)
    → now < date
    → time_ago parse_date (pos now) s ≡ "just now"
unfolding time_ago
time_ago_future parse_date now date s e h =
    rw e (ap (λ d. ago (int d)) (sub_of_lt now date h) ∙ ago_negsuc (date - now - 1))

-- The three nested roundings of `timeAgo` are one division of the age by the unit: a date that can
-- be read is described in the largest unit of which its age holds one. A date in the future has the
-- age 0, and is described as now.
pub time_ago-age_text :
    (parse_date : String → Number) (now date : ℕ) (s : String)
    → parse_date s ≡ int (pos date)
    → time_ago parse_date (pos now) s ≡ age_text (now - date)
time_ago-age_text parse_date now date s e = elim (Bool-cases (ltb now date)) [
  | inl h ↦ time_ago_future parse_date now date s e (ltb→lt now date h) ∙ sym (no_age h)
  | inr h ↦ time_ago_past parse_date now date (now - date) s e (whole h)
]
  where
    whole : ltb now date ≡ false → now ≡ date + (now - date)
    whole h = ground arith

    no_age : ltb now date ≡ true → age_text (now - date) ≡ "just now"
    no_age h = let z : now - date ≡ 0 = ground arith in ap age_text z

-- A text that is no date is described as "NaNd ago", whatever the clock says.
pub time_ago_invalid :
    (parse_date : String → Number) (now : ℤ) (s : String)
    → parse_date s ≡ nan
    → time_ago parse_date now s ≡ "NaNd ago"
unfolding time_ago show_number is_below
time_ago_invalid parse_date now s e = rw e

-- Reads a duration as `formatDuration` prints it, "5s" or "2m 15s", in seconds.
abbrev read_unit : ℕ → String → Option ℕ
read_unit n [] = none
read_unit n (s ∷ []) = some n
read_unit n (m ∷ space ∷ seconds) = some (n * 60 + (read_digits 0 seconds).value)

abbrev pub read_duration : String → Option ℕ
read_duration text = let r = read_digits 0 text in read_unit r.value r.rest

abbrev seconds_text : ℕ → String
seconds_text secs =
    if ltb secs 60
    then decimal secs <> "s"
    else decimal (secs / 60) <> "m " <> decimal (secs % 60) <> "s"

format_duration-seconds_text : (ms : ℕ) → format_duration (int (pos ms)) ≡ seconds_text (ms / 1000)
unfolding format_duration show_number show_int
format_duration-seconds_text ms = simp is_below_pos

m_space : (s : String) → "m " <> s ≡ "m" ∷ " " ∷ s
m_space s = rw (cons-append "m" " " s, cons-append " " "" s, nil-append s)

read_duration-seconds_text : (secs : ℕ) → read_duration (seconds_text secs) ≡ some secs
read_duration-seconds_text secs = elim (Bool-cases (ltb secs 60)) [
  | inl e ↦ rw (e, read_digits-decimal secs "s")
  | inr e ↦
      rw (e, read_digits-decimal (secs / 60), m_space, read_digits-decimal (secs % 60))
        (ground arith)
]

-- A printed duration reads back as the duration in whole seconds, rounded down.
pub read_duration-format_duration :
    (ms : ℕ) → read_duration (format_duration (int (pos ms))) ≡ some (ms / 1000)
read_duration-format_duration ms =
    rw format_duration-seconds_text (read_duration-seconds_text (ms / 1000))

-- Two durations are printed alike exactly where they are the same number of whole seconds.
format_duration-eq_iff :
    (a b : ℕ)
    → (format_duration (int (pos a)) ≡ format_duration (int (pos b))) ↔ (a / 1000 ≡ b / 1000)
format_duration-eq_iff a b = (
  λ e. some-injective _ _ (
      sym (read_duration-format_duration a) ∙ ap read_duration e ∙ read_duration-format_duration b),
  λ e. rw (format_duration-seconds_text, format_duration-seconds_text) (ap seconds_text e),
)
