-- ===== src/Prelude/Text.antt =====
-- Texts by their characters: cutting a text at a separator, what joins to what, and numbers in print.
use Prim.Native.Char.{Char, code}
use Prim.Native.String
use text.Mathlib.TextLemmas.{nil-append, cons-append}
use railsentinel.Prelude.{
  ℕ, zero, suc, ◌/◌, ◌%◌, ltb, ◌≡◌, refl, String, List, [], ◌∷◌, ◌++◌, Bool, true, ◌&&◌, not, ◌==◌,
  if◌then◌else◌, arith, Bool-cases, inl, inr,
}

infixr 66 ◌+++◌
abbrev pub ◌+++◌ : String → String → String
s +++ t = String.◌++◌ s t

abbrev pub push_head : Char → List String → List String
push_head c [] = (String.◌∷◌ c "") ∷ []
push_head c (x ∷ xs) = (String.◌∷◌ c x) ∷ xs

-- `split` at a separator of one character, given by its code
unfoldable pub split : ℕ → String → List String
split sep String.[] = "" ∷ []
split sep (String.◌∷◌ c s) =
    let rest = split sep s in if code c == sep then "" ∷ rest else push_head c rest

-- The separator does not occur.
abbrev pub lacks : ℕ → String → Bool
lacks sep String.[] = true
lacks sep (String.◌∷◌ c s) = not (code c == sep) && lacks sep s

-- A text without the separator is one piece.
pub split-lacks : (sep : ℕ) (s : String) → lacks sep s ≡ true → split sep s ≡ s ∷ []
unfolding split
split-lacks sep String.[] h = refl
split-lacks sep (String.◌∷◌ c s) h = ground (arith, split-lacks sep s)

push_head_cons :
    (c : Char) (l : List String) → (x : String) × (xs : List String) × (push_head c l ≡ x ∷ xs)
push_head_cons c [] = (_, _, refl)
push_head_cons c (x ∷ xs) = (_, _, refl)

split_cons : (sep : ℕ) (s : String) → (x : String) × (xs : List String) × (split sep s ≡ x ∷ xs)
unfolding split
split_cons sep String.[] = (_, _, refl)
split_cons sep (String.◌∷◌ c s) = elim (Bool-cases (code c == sep)) [
  | inl cut ↦ ("", split sep s, rw cut)
  | inr kept ↦ let (x, xs, e) = push_head_cons c (split sep s) in (x, xs, rw kept e)
]

push_head-split :
    (sep : ℕ) (d : Char) (s : String) (ys : List String)
    → push_head d (split sep s ++ ys) ≡ push_head d (split sep s) ++ ys
push_head-split sep d s ys = let (x, xs, e) = split_cons sep s in rw e refl

-- Cutting at a separator that stands between two texts
pub split-append :
    (sep : ℕ) (s t : String) (c : Char)
    → code c ≡ sep
    → split sep (s +++ String.◌∷◌ c t) ≡ split sep s ++ split sep t
unfolding split
split-append sep String.[] t c e = rw nil-append (ground arith)
split-append sep (String.◌∷◌ d s) t c e =
    rw cons-append (ground (arith, split-append sep s t c e, push_head-split sep d s (split sep t)))

abbrev pub digit : ℕ → String
digit d =
    if d == 0
    then "0"
    else if d == 1
    then "1"
    else if d == 2
    then "2"
    else if d == 3
    then "3"
    else if d == 4
    then "4"
    else if d == 5
    then "5"
    else if d == 6
    then "6"
    else if d == 7
    then "7"
    else if d == 8
    then "8"
    else "9"

-- The decimal digits of a number, as many rounds as the number is large, which is enough
unfoldable pub decimal_loop : ℕ → ℕ → String
decimal_loop zero n = digit n
decimal_loop (suc fuel) n =
    let rest = decimal_loop fuel (n / 10) in if ltb n 10 then digit n else rest +++ digit (n % 10)

unfoldable pub decimal : ℕ → String
unfolding decimal_loop
decimal n = decimal_loop n n
