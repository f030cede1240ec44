-- ===== src/Dashboard/Line.antt =====
-- apps/cco-dashboard/src/domain/line.ts: the geometry of the loop of line 2, in whole units.
use railsentinel.Prelude.{
  ℕ, ◌-◌, ◌+◌, ◌%◌, ◌<◌, ◌≡◌, String, List, [], ◌∷◌, Option, none, some, Bool, arith, leb, ltb,
  ◌&&◌, find, if◌then◌else◌,
}
use railsentinel.Prelude.Int.{ℤ, pos, negsuc, sub_ℕ}

pub record Stop : Type 0 where
  pub id : String
  pub name : String
  pub t : ℕ

pub record Section : Type 0 where
  pub id : String
  pub start : String
  pub end : String
  pub range : ℕ × ℕ

-- the length of the loop
abbrev pub loop_units : ℕ
loop_units = 1_422_000

-- `((t % 1) + 1) % 1` on a signed position
unfoldable pub wrap : ℤ → ℕ
wrap (pos n) = n % loop_units
wrap (negsuc n) = loop_units - 1 - n % loop_units

unfoldable pub forward : ℕ → ℕ → ℕ
unfolding wrap
forward from to = wrap (sub_ℕ to from)

unfoldable pub is_inside : ℕ → ℕ × ℕ → Bool
unfolding forward
is_inside t range = leb (forward range.0 t) (forward range.0 range.1)

abbrev pub last_or_none : List Section → Option Section
last_or_none [] = none
last_or_none (s ∷ []) = some s
last_or_none (s ∷ rest) = last_or_none rest

-- The first section that holds the position, and else the last one
unfoldable pub section_at : List Section → ℕ → Option Section
unfolding is_inside
section_at sections t = elim (find (λ s. is_inside t s.range) sections) [
  | some s ↦ some s
  | none ↦ last_or_none sections
]

-- The loop of `nextStop`: the best stop and its distance, `none` for `Infinity`
unfoldable pub next_stop_loop : ℕ → List Stop → Stop → Option ℕ → Stop
unfolding forward
next_stop_loop t [] best best_dist = best
next_stop_loop t (s ∷ rest) best best_dist =
    let d = forward t s.t in
    let kept = next_stop_loop t rest best best_dist in
    let closer = next_stop_loop t rest s (some d) in
    if ltb 0 d && elim best_dist [ none ↦ Bool.true | some b ↦ ltb d b ] then closer else kept

-- from the first stop of the list on
unfoldable pub next_stop : ℕ → Stop → List Stop → Stop
unfolding next_stop_loop
next_stop t first rest = next_stop_loop t (first ∷ rest) first none

pub forward_eq :
    (a b : ℕ)
    → a < loop_units
    → b < loop_units
    → forward a b ≡ (if leb a b then b - a else b + loop_units - a)
unfolding forward wrap
forward_eq a b ha hb = ground arith
