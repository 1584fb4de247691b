-- ===== src/Common/Stamp.antt =====
-- The timestamp texts that the tables hold, `'%Y-%m-%dT%H:%M:%S.%fZ'`: what the program relies on of
-- `datetime`. A time is counted in microseconds, which the format keeps.
use lftpweb.Common.{ℕ, String, ◌≡◌, refl, ap, Option, none, some}

pub record Stamps : Type 0 where
  pub format : ℕ → String
  pub parse : String → ℕ
  pub parse-format : (t : ℕ) → parse (format t) ≡ t

-- `_format_iso_opt`, `_parse_iso_opt`
abbrev pub format_opt : Stamps → Option ℕ → Option String
format_opt st none = none
format_opt st (some t) = some (st.format t)

abbrev pub parse_opt : Stamps → Option String → Option ℕ
parse_opt st none = none
parse_opt st (some s) = some (st.parse s)

pub parse_opt-format_opt : (st : Stamps) (o : Option ℕ) → parse_opt st (format_opt st o) ≡ o
parse_opt-format_opt st none = refl
parse_opt-format_opt st (some t) = ap some (st.parse-format t)
