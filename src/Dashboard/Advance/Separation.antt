-- ===== src/Dashboard/Advance/Separation.antt =====
-- apps/cco-dashboard/src/state/reducer.ts: the trams keep their distance in every tick.
use railsentinel.Prelude.{
  ℕ, ◌+◌, ◌%◌, ◌≤◌, ◌<◌, ◌≡◌, refl, ◌⊎◌, inl, inr, List, [], ◌∷◌, map, Option, none, some, true,
  false, leb, str_eq, eq_iff, arith, Bool-cases, All, All-map,
}
use railsentinel.Dashboard.State.{TrainState, CcoState}
use railsentinel.Dashboard.Line.{loop_units, forward, forward_eq}
use railsentinel.Dashboard.Advance.{Constraint, min_gap, room, moved, advance_train}
use railsentinel.Dashboard.Advance.Moves.{Advances, advance_train_lem}

-- Positions on the loop
abbrev pub OnLoop : List TrainState → Type 0
OnLoop ts = All (λ x. x.t < loop_units) ts

-- Two trams with ids of their own, each at least the gap behind the other
abbrev pub AreApart : TrainState → TrainState → Type 0
AreApart x y =
    (str_eq x.id y.id ≡ false) × ((min_gap ≤ forward x.t y.t) × (min_gap ≤ forward y.t x.t))

abbrev pub AreSeparated : List TrainState → Type 0
AreSeparated [] = Unit
AreSeparated (x ∷ xs) = All (AreApart x) xs × AreSeparated xs

pub moved-t : (t m : ℕ) → t < loop_units → (t + m) % loop_units < loop_units
moved-t t m h = omega arith

-- Behind each other at least by the gap, and gone on at most by what is left of it
apart_step :
    (a b m n : ℕ)
    → a < loop_units
    → b < loop_units
    → min_gap ≤ forward a b
    → min_gap ≤ forward b a
    → m ≤ room a b
    → n ≤ room b a
    → min_gap ≤ forward ((a + m) % loop_units) ((b + n) % loop_units)
unfolding room
apart_step a b m n ha hb gab gba hm hn = ground (
  arith,
  forward_eq a b ha hb,
  forward_eq b a hb ha,
  forward_eq ((a + m) % loop_units) ((b + n) % loop_units) (moved-t a m ha) (moved-t b n hb),
)

moved-id : (x : TrainState) (best : Option Constraint) (step : ℕ) → (moved x best step).id ≡ x.id
unfolding moved
moved-id x none step = refl
moved-id x (some c) step = elim (Bool-cases (leb c.distance step)) [
  | inl e ↦ rw e refl
  | inr e ↦ rw e refl
]

advance_train-id : (s : CcoState) (step : ℕ) (x : TrainState) → (advance_train s step x).id ≡ x.id
unfolding advance_train
advance_train-id s step x = moved-id x _ step

-- The tram ahead is another one.
upto :
    (x y : TrainState) (m : ℕ)
    → str_eq x.id y.id ≡ false
    → (str_eq y.id x.id ≡ true) ⊎ (m ≤ room x.t y.t)
    → m ≤ room x.t y.t
upto x y m h b = ground (arith, eq_iff x.id y.id, eq_iff y.id x.id)

upto' :
    (x y : TrainState) (n : ℕ)
    → str_eq x.id y.id ≡ false
    → (str_eq x.id y.id ≡ true) ⊎ (n ≤ room y.t x.t)
    → n ≤ room y.t x.t
upto' x y n h b = ground arith

module _ (s : CcoState) (step : ℕ) where
  -- A tram has gone on by at most what each of these leaves it.
  abbrev Goes : List TrainState → TrainState → Type 0
  Goes zs x =
      (m : ℕ) × (((advance_train s step x).t ≡ (x.t + m) % loop_units)
        × All (λ o. (str_eq o.id x.id ≡ true) ⊎ (m ≤ room x.t o.t)) zs)

  abbrev Room : TrainState → ℕ → TrainState → Type 0
  Room x m o = (str_eq o.id x.id ≡ true) ⊎ (m ≤ room x.t o.t)

  apart_after :
      (x y : TrainState) (m n : ℕ)
      → (x.t < loop_units) × (y.t < loop_units)
      → AreApart x y
      → (advance_train s step x).t ≡ (x.t + m) % loop_units
      → (advance_train s step y).t ≡ (y.t + n) % loop_units
      → Room x m y
      → Room y n x
      → AreApart (advance_train s step x) (advance_train s step y)
  apart_after x y m n h apart ex ey bx by =
      let mx = upto x y m apart.0 bx in
      let ny = upto' x y n apart.0 by in
      (
        rw (advance_train-id s step x) (rw (advance_train-id s step y) apart.0),
        rw ex (
            rw ey (
              apart_step x.t y.t m n h.0 h.1 apart.1.0 apart.1.1 mx ny,
              apart_step y.t x.t n m h.1 h.0 apart.1.1 apart.1.0 ny mx,
            )),
      )

  apart_each :
      (x : TrainState) (m : ℕ) (zs ys : List TrainState)
      → x.t < loop_units
      → (advance_train s step x).t ≡ (x.t + m) % loop_units
      → OnLoop ys
      → All (AreApart x) ys
      → All (Room x m) ys
      → All (Goes (x ∷ zs)) ys
      → All (AreApart (advance_train s step x)) (map (advance_train s step) ys)
  apart_each x m zs [] h ex hys ha bx gs = tt
  apart_each x m zs (y ∷ ys) h ex hys ha bx gs = (
    let (n, (ey, by)) = gs.0 in apart_after x y m n (h, hys.0) ha.0 ex ey bx.0 by.0,
    apart_each x m zs ys h ex hys.1 ha.1 bx.1 gs.1,
  )

  separated_each :
      (xs : List TrainState)
      → OnLoop xs
      → AreSeparated xs
      → All (Goes xs) xs
      → AreSeparated (map (advance_train s step) xs)
  separated_each [] h hs gs = tt
  separated_each (x ∷ xs) h hs gs =
      let (m, (ex, bx)) = gs.0 in
      (
        apart_each x m xs xs h.0 ex h.1 hs.0 bx.1 gs.1,
        separated_each xs h.1 hs.1 (All-map xs (λ y (n, (ey, by)). (n, (ey, by.1))) gs.1),
      )

  every_train_advances :
      (xs : List TrainState) → OnLoop xs → OnLoop s.trains → All (Goes s.trains) xs
  unfolding Advances
  every_train_advances [] h hs = tt
  every_train_advances (x ∷ xs) h hs =
      let (m, (ex, (bx, rx))) = advance_train_lem s step x h.0 hs in
      ((m, (ex, bx)), every_train_advances xs h.1 hs)

  pub advance-AreSeparated :
      OnLoop s.trains → AreSeparated s.trains → AreSeparated (map (advance_train s step) s.trains)
  advance-AreSeparated h hs = separated_each s.trains h hs (every_train_advances s.trains h h)

  loop_each :
      (zs xs : List TrainState)
      → OnLoop xs
      → All (Goes zs) xs
      → OnLoop (map (advance_train s step) xs)
  loop_each zs [] h gs = tt
  loop_each zs (x ∷ xs) h gs =
      let (m, (ex, bx)) = gs.0 in (rw ex (moved-t x.t m h.0), loop_each zs xs h.1 gs.1)

  pub advance-OnLoop : OnLoop s.trains → OnLoop (map (advance_train s step) s.trains)
  advance-OnLoop h = loop_each s.trains s.trains h (every_train_advances s.trains h h)
