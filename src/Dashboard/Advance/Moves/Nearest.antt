-- ===== src/Dashboard/Advance/Moves/Nearest.antt =====
-- apps/cco-dashboard/src/state/reducer.ts: where the nearest constraint lies, and that none lies nearer.
use mathlib.Core.Path.{subst}
use railsentinel.Prelude.{
  ℕ, zero, suc, ◌+◌, ◌-◌, ◌%◌, ◌≤◌, ◌<◌, ◌≡◌, refl, ◌⊎◌, inl, inr, String, List, [], ◌∷◌, Option,
  none, some, Bool, true, false, ltb, leb, str_eq, arith, Bool-cases, All, if◌then◌else◌,
}
use railsentinel.Prelude.Int.{pos, sub_ℕ}
use railsentinel.Dashboard.State.{TrainState, RestrictionState}
use railsentinel.Dashboard.Line.{loop_units, wrap, forward, forward_eq}
use railsentinel.Dashboard.Advance.{
  Constraint, min_gap, hold_margin, nearer, hold_at, stop_before, is_ignored, restriction_loop,
  room, stop_behind, train_loop,
}

-- The point of the constraint lies its distance ahead of `t`.
abbrev pub IsAhead : ℕ → Constraint → Type 0
IsAhead t c = (c.distance < loop_units) × (c.position ≡ (t + c.distance) % loop_units)

abbrev pub AreAhead : ℕ → Option Constraint → Type 0
AreAhead t none = Unit
AreAhead t (some c) = IsAhead t c

-- The nearest constraint is at most `d` away.
abbrev pub Within : Option Constraint → ℕ → Type 0
Within none d = ⊥
Within (some c) d = c.distance ≤ d

pub wrap_lt : (n : railsentinel.Prelude.Int.ℤ) → wrap n < loop_units
unfolding wrap
wrap_lt (pos n) = omega arith
wrap_lt (railsentinel.Prelude.Int.negsuc n) = omega arith

pub wrap_pos : (n : ℕ) → wrap (pos n) ≡ n % loop_units
unfolding wrap
wrap_pos n = refl

pub forward_ahead :
    (t to : ℕ)
    → t < loop_units
    → to < loop_units
    → (forward t to < loop_units) × (to ≡ (t + forward t to) % loop_units)
forward_ahead t to ht hto = ground (arith, forward_eq t to ht hto)

-- A point that lies behind another by `gap`
pub behind_ahead :
    (t to gap : ℕ)
    → t < loop_units
    → to < loop_units
    → gap ≤ forward t to
    → wrap (sub_ℕ to gap) ≡ (t + (forward t to - gap)) % loop_units
unfolding wrap
behind_ahead t to gap ht hto h = ground (arith, forward_eq t to ht hto)

pub hold_at_lt : (r : RestrictionState) → hold_at r < loop_units
unfolding hold_at
hold_at_lt r = wrap_lt (sub_ℕ r.range.0 hold_margin)

pub stop_before-IsAhead :
    (train : TrainState) (r : RestrictionState)
    → train.t < loop_units
    → IsAhead train.t (stop_before train r)
unfolding stop_before
stop_before-IsAhead train r h = forward_ahead train.t (hold_at r) h (hold_at_lt r)

pub stop_behind-IsAhead :
    (train other : TrainState)
    → train.t < loop_units
    → other.t < loop_units
    → IsAhead train.t (stop_behind train other)
unfolding stop_behind room
stop_behind-IsAhead train other h ho =
    ground (arith, forward_ahead train.t other.t h ho, behind_ahead train.t other.t min_gap h ho)

pub nearer-AreAhead :
    (t : ℕ) (best : Option Constraint) (c : Constraint)
    → AreAhead t best
    → IsAhead t c
    → AreAhead t (nearer best c)
unfolding nearer
nearer-AreAhead t none c hb hc = hc
nearer-AreAhead t (some b) c hb hc = elim (Bool-cases (ltb c.distance b.distance)) [
  | inl e ↦ rw e hc
  | inr e ↦ rw e hb
]

pub nearer-Within :
    (best : Option Constraint) (c : Constraint) (d : ℕ) → Within best d → Within (nearer best c) d
unfolding nearer
nearer-Within none c d h = absurd h
nearer-Within (some b) c d h = ground arith

pub nearer_new : (best : Option Constraint) (c : Constraint) → Within (nearer best c) c.distance
unfolding nearer
nearer_new none c = ground arith
nearer_new (some b) c = ground arith

-- Every stop before a restriction, and behind a tram, is as far as the constraint or further.
abbrev pub RestrictionsWithin : TrainState → List RestrictionState → Option Constraint → Type 0
RestrictionsWithin train rs best =
    All (λ r. (is_ignored train r ≡ true) ⊎ Within best (forward train.t (hold_at r))) rs

abbrev pub TrainsWithin : TrainState → List TrainState → Option Constraint → Type 0
TrainsWithin train ts best =
    All (λ o. (str_eq o.id train.id ≡ true) ⊎ Within best (room train.t o.t)) ts

module _ (train : TrainState) where
  pub restriction_loop-AreAhead :
      (rs : List RestrictionState) (best : Option Constraint)
      → train.t < loop_units
      → AreAhead train.t best
      → AreAhead train.t (restriction_loop train rs best)
  unfolding restriction_loop
  restriction_loop-AreAhead [] best h hb = hb
  restriction_loop-AreAhead (r ∷ rs) best h hb = elim (Bool-cases (is_ignored train r)) [
    | inl e ↦ rw e (restriction_loop-AreAhead rs best h hb)
    | inr e ↦ rw e (
        restriction_loop-AreAhead rs (nearer best (stop_before train r)) h
          (nearer-AreAhead train.t best (stop_before train r) hb (stop_before-IsAhead train r h)))
  ]

  pub restriction_loop-Within :
      (rs : List RestrictionState) (best : Option Constraint) (d : ℕ)
      → Within best d
      → Within (restriction_loop train rs best) d
  unfolding restriction_loop
  restriction_loop-Within [] best d hb = hb
  restriction_loop-Within (r ∷ rs) best d hb = elim (Bool-cases (is_ignored train r)) [
    | inl e ↦ rw e (restriction_loop-Within rs best d hb)
    | inr e ↦ rw e (
        restriction_loop-Within rs (nearer best (stop_before train r)) d
          (nearer-Within best (stop_before train r) d hb))
  ]

  -- The stops before the restrictions are within reach of the loop's result.
  pub restrictiloop_each :
      (rs : List RestrictionState) (best : Option Constraint)
      → RestrictionsWithin train rs (restriction_loop train rs best)
  unfolding restriction_loop stop_before
  restrictiloop_each [] best = tt
  restrictiloop_each (r ∷ rs) best = elim (Bool-cases (is_ignored train r)) [
    | inl e ↦
        let same : restriction_loop train rs best ≡ restriction_loop train (r ∷ rs) best =
          rw e refl in
        (inl e, subst (RestrictionsWithin train rs) same (restrictiloop_each rs best))
    | inr e ↦
        let best' = nearer best (stop_before train r) in
        let same : restriction_loop train rs best' ≡ restriction_loop train (r ∷ rs) best =
          rw e refl in
        subst (RestrictionsWithin train (r ∷ rs)) same (
          inr (
              restriction_loop-Within rs best' (stop_before train r).distance
                (nearer_new best (stop_before train r))),
          restrictiloop_each rs best',
        )
  ]

  pub train_loop-AreAhead :
      (ts : List TrainState) (best : Option Constraint)
      → train.t < loop_units
      → All (λ o. o.t < loop_units) ts
      → AreAhead train.t best
      → AreAhead train.t (train_loop train ts best)
  unfolding train_loop
  train_loop-AreAhead [] best h hts hb = hb
  train_loop-AreAhead (o ∷ ts) best h hts hb = elim (Bool-cases (str_eq o.id train.id)) [
    | inl e ↦ rw e (train_loop-AreAhead ts best h hts.1 hb)
    | inr e ↦ rw e (
        train_loop-AreAhead ts (nearer best (stop_behind train o)) h hts.1 (
          nearer-AreAhead train.t best (stop_behind train o) hb
            (stop_behind-IsAhead train o h hts.0)))
  ]

  pub train_loop-Within :
      (ts : List TrainState) (best : Option Constraint) (d : ℕ)
      → Within best d
      → Within (train_loop train ts best) d
  unfolding train_loop
  train_loop-Within [] best d hb = hb
  train_loop-Within (o ∷ ts) best d hb = elim (Bool-cases (str_eq o.id train.id)) [
    | inl e ↦ rw e (train_loop-Within ts best d hb)
    | inr e ↦ rw e (
        train_loop-Within ts (nearer best (stop_behind train o)) d
          (nearer-Within best (stop_behind train o) d hb))
  ]

  pub train_loop_all :
      (ts : List TrainState) (best : Option Constraint)
      → TrainsWithin train ts (train_loop train ts best)
  unfolding train_loop stop_behind
  train_loop_all [] best = tt
  train_loop_all (o ∷ ts) best = elim (Bool-cases (str_eq o.id train.id)) [
    | inl e ↦
        let same : train_loop train ts best ≡ train_loop train (o ∷ ts) best = rw e refl in
        (inl e, subst (TrainsWithin train ts) same (train_loop_all ts best))
    | inr e ↦
        let best' = nearer best (stop_behind train o) in
        let same : train_loop train ts best' ≡ train_loop train (o ∷ ts) best = rw e refl in
        subst (TrainsWithin train (o ∷ ts)) same (
          inr (
              train_loop-Within ts best' (stop_behind train o).distance
                (nearer_new best (stop_behind train o))),
          train_loop_all ts best',
        )
  ]
