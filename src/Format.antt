-- ===== src/Format.antt =====
-- ui/src/utils/format.ts: relative times and durations. The clock's `Date.now()` is an argument;
-- `parse_date` stands for `new Date(text).getTime()`, which is NaN for a text that is no date.
pub mod Laws
use drop_the_mic.Base.{ℕ, ◌+◌, ◌*◌, String, if◌then◌else◌}
use drop_the_mic.Base.Num.{ℤ, Number, int, sub_number, floor_quotient, remainder, is_below}
use drop_the_mic.Base.Text.{◌<>◌}
use drop_the_mic.Base.Text.Decimal.{show_number}

-- The texts after the difference `diff` is known.
unfoldable pub ago : Number → String
unfolding show_number
ago diff =
    let mins = floor_quotient diff 60000 in
    let hrs = floor_quotient mins 60 in
    if is_below mins 1
    then "just now"
    else if is_below mins 60
    then show_number mins <> "m ago"
    else if is_below hrs 24
    then show_number hrs <> "h ago"
    else show_number (floor_quotient hrs 24) <> "d ago"

unfoldable pub time_ago : (String → Number) → ℤ → String → String
unfolding ago
time_ago parse_date now date_str = ago (sub_number (int now) (parse_date date_str))

unfoldable pub format_duration : Number → String
unfolding show_number
format_duration ms =
    let secs = floor_quotient ms 1000 in
    let mins = floor_quotient secs 60 in
    let remain_secs = remainder secs 60 in
    if is_below secs 60
    then show_number secs <> "s"
    else show_number mins <> "m " <> show_number remain_secs <> "s"
