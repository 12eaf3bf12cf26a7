-- ===== src/Base/Results.antt =====
-- Rust's `Result`.
use mathlib.Core.Option.{Option, none, some}

pub data Result (E A : Type 0) : Type 0 where
  ok : A → Result E A
  err : E → Result E A

-- `Result::ok`
abbrev pub to_option : {E A : Type 0} → Result E A → Option A
to_option (ok a) = some a
to_option (err e) = none

-- `Result::unwrap_or`
abbrev pub unwrap_or : {E A : Type 0} → Result E A → A → A
unwrap_or (ok a) d = a
unwrap_or (err e) d = d
