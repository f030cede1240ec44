-- ===== src/Dashboard/Initial/Sound.antt =====
-- apps/cco-dashboard/src/state/reducer.ts: the state with which a post starts.
use railsentinel.Prelude.{ℕ, ◌≡◌, refl, inl, inr, some, arith}
use railsentinel.Dashboard.State.{CcoState}
use railsentinel.Dashboard.Seeds
use railsentinel.Dashboard.Line.{is_inside}
use railsentinel.Dashboard.Initial.{Clock, initial_state}
use railsentinel.Dashboard.Reducer.Safety.{IsSafe}
use railsentinel.Dashboard.Reducer.Log.{IsLogged}

-- At any hour `initialState` finds the section of every restriction. The state that it returns keeps
-- the trams apart and short of the restrictions, and its log is in order.
pub initial_state-IsSafe :
    (local : ℕ → Clock) (now : ℕ)
    → (s : CcoState) × ((initial_state local now ≡ some s) × (IsSafe s × IsLogged s))
unfolding initial_state is_inside railsentinel.Prelude.Text.decimal
initial_state-IsSafe local now = (
  _,
  (
    refl,
    (
      (
        (omega arith, (omega arith, (omega arith, tt))),
        (
          (
            ((refl, (omega arith, omega arith)), ((refl, (omega arith, omega arith)), tt)),
            (((refl, (omega arith, omega arith)), tt), (tt, tt)),
          ),
          (
            (
              (omega arith, omega arith),
              inr ((refl, omega arith), ((refl, omega arith), ((refl, omega arith), tt))),
            ),
            tt,
          ),
        ),
      ),
      (
        omega arith,
        (
          (omega arith, (omega arith, (omega arith, (omega arith, (omega arith, tt))))),
          (inl refl, (inl refl, (inl refl, (inl refl, (inr (Seeds.seed_operator, refl), tt))))),
        ),
      ),
    ),
  ),
)
