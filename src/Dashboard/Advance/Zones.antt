-- ===== src/Dashboard/Advance/Zones.antt =====
-- apps/cco-dashboard/src/state/reducer.ts: the trams stop before the restrictions in force.
use railsentinel.Prelude.{
  ℕ, ◌+◌, ◌%◌, ◌≤◌, ◌<◌, ◌≡◌, ◌⊎◌, inl, inr, List, [], ◌∷◌, map, true, false, leb, arith, All,
  All-map, Bool-cases,
}
use railsentinel.Prelude.Map.{is_some}
use railsentinel.Prelude.Int.{sub_ℕ}
use railsentinel.Dashboard.State.{TrainState, RestrictionState, CcoState}
use railsentinel.Dashboard.Line.{loop_units, wrap, forward, is_inside, forward_eq}
use railsentinel.Dashboard.Advance.{hold_margin, hold_at, is_ignored, advance_train}
use railsentinel.Dashboard.Advance.Moves.{Advances, advance_train_lem}
use railsentinel.Dashboard.Advance.Separation.{OnLoop, moved-t}

abbrev pub HasRange : RestrictionState → Type 0
HasRange r = (r.range.0 < loop_units) × (r.range.1 < loop_units)

-- The tram is outside of the restricted section and has not passed the stopping point before it.
abbrev pub IsShortOf : TrainState → RestrictionState → Type 0
IsShortOf x r = (is_inside x.t r.range ≡ false) × (hold_margin ≤ forward x.t r.range.0)

-- Every tram is short of every restriction that is not cleared.
abbrev pub AreRespected : List TrainState → List RestrictionState → Type 0
AreRespected ts rs =
    All (λ r. HasRange r × ((is_some r.cleared ≡ true) ⊎ All (λ x. IsShortOf x r) ts)) rs

-- How far it is to the stopping point
hold_distance :
    (t from : ℕ)
    → t < loop_units
    → from < loop_units
    → hold_margin ≤ forward t from
    → forward t (wrap (sub_ℕ from hold_margin)) + hold_margin ≡ forward t from
unfolding wrap forward
hold_distance t from ht hf h = ground arith

short_step :
    (t m from to : ℕ)
    → t < loop_units
    → (from < loop_units) × (to < loop_units)
    → leb (forward from t) (forward from to) ≡ false
    → m + hold_margin ≤ forward t from
    → (leb (forward from ((t + m) % loop_units)) (forward from to) ≡ false)
      × (hold_margin ≤ forward ((t + m) % loop_units) from)
short_step t m from to ht hr out h = ground (
  arith,
  forward_eq from t hr.0 ht,
  forward_eq t from ht hr.0,
  forward_eq from ((t + m) % loop_units) hr.0 (moved-t t m ht),
  forward_eq ((t + m) % loop_units) from (moved-t t m ht) hr.0,
)

ignored_only :
    (x : TrainState) (r : RestrictionState)
    → is_some r.cleared ≡ false
    → is_inside x.t r.range ≡ false
    → is_ignored x r ≡ false
unfolding is_ignored
ignored_only x r active out = rw active out

module _ (s : CcoState) (step : ℕ) where
  abbrev Limit : TrainState → ℕ → RestrictionState → Type 0
  Limit x m r = (is_ignored x r ≡ true) ⊎ (m ≤ forward x.t (hold_at r))

  -- A tram has gone on by at most what each of these leaves it.
  abbrev Runs : List RestrictionState → TrainState → Type 0
  Runs rs x = (m : ℕ) × (((advance_train s step x).t ≡ (x.t + m) % loop_units) × All (Limit x m) rs)

  short_after :
      (r : RestrictionState) (x : TrainState) (m : ℕ)
      → HasRange r
      → x.t < loop_units
      → is_some r.cleared ≡ false
      → IsShortOf x r
      → (advance_train s step x).t ≡ (x.t + m) % loop_units
      → Limit x m r
      → IsShortOf (advance_train s step x) r
  unfolding is_inside hold_at
  short_after r x m hr h active short ex limit = rw ex (
      short_step x.t m r.range.0 r.range.1 h hr short.0 (
        ground
          (arith, ignored_only x r active short.0, hold_distance x.t r.range.0 h hr.0 short.1)))

  short_each :
      (r : RestrictionState) (rs : List RestrictionState) (xs : List TrainState)
      → HasRange r
      → is_some r.cleared ≡ false
      → OnLoop xs
      → All (λ x. IsShortOf x r) xs
      → All (Runs (r ∷ rs)) xs
      → All (λ x. IsShortOf x r) (map (advance_train s step) xs)
  short_each r rs [] hr active h short runs = tt
  short_each r rs (x ∷ xs) hr active h short runs =
      let (m, (ex, limit)) = runs.0 in
      (
        short_after r x m hr h.0 active short.0 ex limit.0,
        short_each r rs xs hr active h.1 short.1 runs.1,
      )

  respected_each :
      (xs : List TrainState) (rs : List RestrictionState)
      → OnLoop xs
      → AreRespected xs rs
      → All (Runs rs) xs
      → AreRespected (map (advance_train s step) xs) rs
  respected_each xs [] h ok runs = tt
  respected_each xs (r ∷ rs) h ok runs = (
    (
      ok.0.0,
      elim (Bool-cases (is_some r.cleared)) [
        | inl e ↦ inl e
        | inr e ↦ elim ok.0.1 [
          | inl c ↦ inl c
          | inr short ↦ inr (short_each r rs xs ok.0.0 e h short runs)
        ]
      ],
    ),
    respected_each xs rs h ok.1 (All-map xs (λ x (m, (ex, limit)). (m, (ex, limit.1))) runs),
  )

  every_train_moves :
      (xs : List TrainState) → OnLoop xs → OnLoop s.trains → All (Runs s.restrictions) xs
  unfolding Advances
  every_train_moves [] h hs = tt
  every_train_moves (x ∷ xs) h hs =
      let (m, (ex, (bx, limit))) = advance_train_lem s step x h.0 hs in
      ((m, (ex, limit)), every_train_moves xs h.1 hs)

  pub advance-AreRespected :
      OnLoop s.trains
      → AreRespected s.trains s.restrictions
      → AreRespected (map (advance_train s step) s.trains) s.restrictions
  advance-AreRespected h ok =
      respected_each s.trains s.restrictions h ok (every_train_moves s.trains h h)
