-- ===== src/Dashboard/Advance/Moves.antt =====
-- apps/cco-dashboard/src/state/reducer.ts: how far a tram goes in a tick. It runs at most up to every
-- point at which it has to stop.
pub mod Nearest
use mathlib.Core.Path.{subst}
use railsentinel.Prelude.{
  ℕ, zero, suc, ◌+◌, ◌-◌, ◌%◌, ◌≤◌, ◌<◌, ◌≡◌, refl, ◌⊎◌, inl, inr, String, List, [], ◌∷◌, Option,
  none, some, Bool, true, false, ltb, leb, str_eq, arith, Bool-cases, All, if◌then◌else◌,
}
use railsentinel.Prelude.Int.{pos, sub_ℕ}
use railsentinel.Dashboard.State.{TrainState, RestrictionState, CcoState}
use railsentinel.Dashboard.Line.{loop_units, wrap, forward, forward_eq}
use railsentinel.Dashboard.Advance.{
  Constraint, min_gap, hold_margin, nearer, hold_at, stop_before, is_ignored, restriction_loop,
  room, stop_behind, train_loop, nearest_constraint, moved, advance_train,
}
use railsentinel.Dashboard.Advance.Moves.Nearest.{
  AreAhead, RestrictionsWithin, Within, restrictiloop_each, restriction_loop-AreAhead,
  train_loop-AreAhead, train_loop-Within, train_loop_all, wrap_pos,
}

-- The way a tram goes in a tick: at most up to every point that the nearest constraint is within.
moved_by :
    (train : TrainState) (best : Option Constraint) (step : ℕ)
    → AreAhead train.t best
    → (m : ℕ) × (((moved train best step).t ≡ (train.t + m) % loop_units)
        × ((d : ℕ) → Within best d → m ≤ d))
unfolding moved
moved_by train none step h = (step, (wrap_pos (train.t + step), λ d w. absurd w))
moved_by train (some c) step h = elim (Bool-cases (leb c.distance step)) [
  | inl e ↦ rw e (c.distance, (h.1, λ d w. w))
  | inr e ↦ rw e (step, (wrap_pos (train.t + step), λ d w. ground arith))
]

-- A tram advances by `m`, at most to the gap behind every other tram and to the stopping point of
-- every restriction in force that it is not inside of.
unfoldable pub Advances : CcoState → TrainState → TrainState → ℕ → Type 0
Advances s train train' m =
    (train'.t ≡ (train.t + m) % loop_units)
    × (All (λ o. (str_eq o.id train.id ≡ true) ⊎ (m ≤ room train.t o.t)) s.trains
        × All (λ r. (is_ignored train r ≡ true) ⊎ (m ≤ forward train.t (hold_at r))) s.restrictions)

All-upto :
    {A : Type 0} (best : Option Constraint) (m : ℕ) (F : A → Type 0) (d : A → ℕ) (xs : List A)
    → ((n : ℕ) → Within best n → m ≤ n)
    → All (λ x. F x ⊎ Within best (d x)) xs
    → All (λ x. F x ⊎ (m ≤ d x)) xs
All-upto best m F d [] h a = tt
All-upto best m F d (x ∷ xs) h a =
    (elim a.0 [ inl f ↦ inl f | inr w ↦ inr (h (d x) w) ], All-upto best m F d xs h a.1)

All-through :
    (train : TrainState) (ts : List TrainState) (best : Option Constraint)
    (rs : List RestrictionState)
    → RestrictionsWithin train rs best
    → RestrictionsWithin train rs (train_loop train ts best)
All-through train ts best [] a = tt
All-through train ts best (r ∷ rs) a = (
  elim a.0 [
    | inl f ↦ inl f
    | inr w ↦ inr (train_loop-Within train ts best (forward train.t (hold_at r)) w)
  ],
  All-through train ts best rs a.1,
)

pub advance_train_lem :
    (s : CcoState) (step : ℕ) (train : TrainState)
    → train.t < loop_units
    → All (λ o. o.t < loop_units) s.trains
    → (m : ℕ) × Advances s train (advance_train s step train) m
unfolding advance_train nearest_constraint Advances
advance_train_lem s step train h hs =
    let near = restriction_loop train s.restrictions none in
    let best = train_loop train s.trains near in
    let (m, (e, upto)) = moved_by train best step (
      train_loop-AreAhead train s.trains near h hs
        (restriction_loop-AreAhead train s.restrictions none h tt)) in
    (
      m,
      (
        e,
        (
          All-upto best m (λ o. str_eq o.id train.id ≡ true) (λ o. room train.t o.t) s.trains upto
              (train_loop_all train s.trains near),
          All-upto best m (λ r. is_ignored train r ≡ true) (λ r. forward train.t (hold_at r))
              s.restrictions upto
              (All-through train s.trains near s.restrictions
                (restrictiloop_each train s.restrictions none)),
        ),
      ),
    )
