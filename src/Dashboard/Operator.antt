-- ===== src/Dashboard/Operator.antt =====
-- apps/cco-dashboard/src/state/reducer.ts: the operator's id. `trim` and the pattern are written out;
-- the change to capitals is the runtime's.
use Prim.Native.Char.{code}
use railsentinel.Prelude.{ℕ, suc, String, Bool, true, false, ◌&&◌, ◌||◌, leb, ◌==◌, if◌then◌else◌}

-- the white space and the ends of lines that `trim` removes
abbrev pub is_space : ℕ → Bool
is_space c =
    (leb 9 c && leb c 13)
    || c == 32
    || c == 160
    || c == 0x1680
    || (leb 0x2000 c && leb c 0x200a)
    || c == 0x2028
    || c == 0x2029
    || c == 0x202f
    || c == 0x205f
    || c == 0x3000
    || c == 0xfeff

abbrev pub is_empty : String → Bool
is_empty String.[] = true
is_empty (String.◌∷◌ c s) = false

unfoldable pub trim_start : String → String
trim_start String.[] = ""
trim_start (String.◌∷◌ c s) =
    let rest = trim_start s in if is_space (code c) then rest else String.◌∷◌ c s

unfoldable pub trim_end : String → String
trim_end String.[] = ""
trim_end (String.◌∷◌ c s) =
    let rest = trim_end s in if is_space (code c) && is_empty rest then "" else String.◌∷◌ c rest

unfoldable pub trim : String → String
unfolding trim_start trim_end
trim s = trim_start (trim_end s)

-- `[A-Z0-9-]`
abbrev pub is_id_char : ℕ → Bool
is_id_char c = (leb 65 c && leb c 90) || (leb 48 c && leb c 57) || c == 45

unfoldable pub all_id_chars : String → Bool
all_id_chars String.[] = true
all_id_chars (String.◌∷◌ c s) = is_id_char (code c) && all_id_chars s

unfoldable pub text_length : String → ℕ
text_length String.[] = 0
text_length (String.◌∷◌ c s) = suc (text_length s)

-- `/^[A-Z0-9-]{2,32}$/`
unfoldable pub matches_id : String → Bool
unfolding all_id_chars text_length
matches_id s = all_id_chars s && leb 2 (text_length s) && leb (text_length s) 32

module _ (to_upper_case : String → String) where
  unfoldable pub normalize_operator_id : String → String
  unfolding trim
  normalize_operator_id raw = to_upper_case (trim raw)

  unfoldable pub is_valid_operator_id : String → Bool
  unfolding normalize_operator_id matches_id
  is_valid_operator_id raw = matches_id (normalize_operator_id raw)
