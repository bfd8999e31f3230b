-- ===== src/Badge.antt =====
-- ui/src/components/Badge.tsx: the variants of a badge and how a verdict chooses one. What a badge
-- shows is its variant and its text; `upper` stands for `toUpperCase`.
use drop_the_mic.Base.{String, if◌then◌else◌, ◌==◌}
use drop_the_mic.Base.Text.{◌<>◌}

pub data Variant : Type 0 where
  pass warn fail info neutral : Variant

pub record Style : Type 0 where
  pub background : String
  pub color : String

unfoldable pub styles : Variant → Style
styles pass = record { background = "var(--success-muted)"; color = "var(--success)" }
styles warn = record { background = "var(--warning-muted)"; color = "var(--warning)" }
styles fail = record { background = "var(--danger-muted)"; color = "var(--danger)" }
styles info = record { background = "var(--accent-muted)"; color = "var(--accent)" }
styles neutral = record { background = "var(--border)"; color = "var(--text-secondary)" }

pub record Badge : Type 0 where
  pub variant : Variant
  pub text : String

unfoldable pub verdict_badge : (String → String) → String → Badge
verdict_badge upper verdict =
    let v = upper verdict in
    record {
      variant =
          if v == "PASS"
          then pass
          else if v == "WARN"
          then warn
          else if v == "FAIL"
          then fail
          else neutral;
      text = v;
    }

unfoldable pub severity_badge : String → Badge
severity_badge severity = record { variant = neutral; text = "severity: " <> severity }
