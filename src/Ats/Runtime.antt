-- ===== src/Ats/Runtime.antt =====
-- What the supervision takes from the language's runtime: the texts of an instant in milliseconds, and
-- `Date.parse`, with `none` for NaN.
use railsentinel.Prelude.{ℕ, String, Option}

pub record Runtime : Type 0 where
  pub to_iso : ℕ → String
  pub to_base36 : ℕ → String
  pub date_parse : String → Option ℕ
