-- ===== src/Dashboard/Reducer/Routine.antt =====
-- apps/cco-dashboard/src/state/reducer.ts: the actions of the post that leave the track as it is, and
-- enter one signed line in the log or none.
use railsentinel.Prelude.{
  suc, ◌≡◌, refl, ◌⊎◌, inl, inr, String, List, ◌∷◌, Option, none, some, str_eq, contains, find,
  Bool-cases,
}
use railsentinel.Prelude.Map.{is_some}
use railsentinel.Dashboard.State.{TrainState, AlarmState, LogText, system, CcoState}
use railsentinel.Dashboard.Line.{Stop}
use railsentinel.Dashboard.Advance.{log_cap, take, with_log}
use railsentinel.Dashboard.Reducer.{
  RegulationAdvice, logout_by, ack_by, act_by, call_by, advise_by, advice_by, select_by,
}

-- A line that is not the system's own names its operator.
abbrev pub IsSigned : LogText → Type 0
IsSigned e = (e.kind ≡ system) ⊎ ((o : String) × (e.operator ≡ some o))

-- The log as it was, or with one signed line more
abbrev pub LogsOnce : CcoState → CcoState → Type 0
LogsOnce s s' =
    ((s'.log ≡ s.log) × (s'.next_seq ≡ s.next_seq))
    ⊎ ((e : LogText) × (IsSigned e
          × ((s'.log ≡ take log_cap (record { seq = s.next_seq; entry = e } ∷ s.log))
              × (s'.next_seq ≡ suc s.next_seq))))

-- The trams and the restrictions are as they were.
abbrev pub IsRoutine : CcoState → CcoState → Type 0
IsRoutine s s' = (s'.trains ≡ s.trains) × ((s'.restrictions ≡ s.restrictions) × LogsOnce s s')

pub ack_by-IsRoutine :
    (s : CcoState) (operator : Option String) (a : Option AlarmState) (at : String)
    → IsRoutine s (ack_by s operator a at)
unfolding ack_by with_log
ack_by-IsRoutine s none a at = (refl, (refl, inl (refl, refl)))
ack_by-IsRoutine s (some o) none at = (refl, (refl, inl (refl, refl)))
ack_by-IsRoutine s (some o) (some a) at = elim (Bool-cases (is_some a.ack)) [
  | inl e ↦ rw e (refl, (refl, inl (refl, refl)))
  | inr e ↦ rw e (refl, (refl, inr (_, (inr (o, refl), (refl, refl)))))
]

pub act_by-IsRoutine :
    (s : CcoState) (operator : Option String) (a : Option AlarmState) (label at : String)
    → IsRoutine s (act_by s operator a label at)
unfolding act_by with_log
act_by-IsRoutine s none a label at = (refl, (refl, inl (refl, refl)))
act_by-IsRoutine s (some o) none label at = (refl, (refl, inl (refl, refl)))
act_by-IsRoutine s (some o) (some a) label at = elim (Bool-cases (contains a.actions label)) [
  | inl e ↦ rw e (refl, (refl, inr (_, (inr (o, refl), (refl, refl)))))
  | inr e ↦ rw e (refl, (refl, inl (refl, refl)))
]

pub call_by-IsRoutine :
    (s : CcoState) (operator : Option String) (id at : String)
    → IsRoutine s (call_by s operator id at)
unfolding call_by with_log
call_by-IsRoutine s none id at = (refl, (refl, inl (refl, refl)))
call_by-IsRoutine s (some o) id at =
    elim (Bool-cases (is_some (find (λ t. str_eq t.id id) s.trains))) [
      | inl e ↦ rw e (refl, (refl, inr (_, (inr (o, refl), (refl, refl)))))
      | inr e ↦ rw e (refl, (refl, inl (refl, refl)))
    ]

pub advise_by-IsRoutine :
    (s : CcoState) (o : String) (train : TrainState) (advice : RegulationAdvice) (at : String)
    → IsRoutine s (advise_by s o train advice at)
unfolding advise_by with_log
advise_by-IsRoutine s o train (RegulationAdvice.stay reason) at = (refl, (refl, inl (refl, refl)))
advise_by-IsRoutine s o train (RegulationAdvice.hold seconds stop) at =
    (refl, (refl, inr (_, (inr (o, refl), (refl, refl)))))

pub advice_by-IsRoutine :
    (first : Stop) (stops : List Stop) (s : CcoState) (operator : Option String)
    (train : Option TrainState) (at : String)
    → IsRoutine s (advice_by first stops s operator train at)
unfolding advice_by
advice_by-IsRoutine first stops s none train at = (refl, (refl, inl (refl, refl)))
advice_by-IsRoutine first stops s (some o) none at = (refl, (refl, inl (refl, refl)))
advice_by-IsRoutine first stops s (some o) (some train) at = advise_by-IsRoutine s o train _ at

pub select_by-IsRoutine : (s : CcoState) (id : Option String) → IsRoutine s (select_by s id)
unfolding select_by
select_by-IsRoutine s none = (refl, (refl, inl (refl, refl)))
select_by-IsRoutine s (some id) =
    elim (Bool-cases (is_some (find (λ t. str_eq t.id id) s.trains))) [
      | inl e ↦ rw e (refl, (refl, inl (refl, refl)))
      | inr e ↦ rw e (refl, (refl, inl (refl, refl)))
    ]

pub logout_by-IsRoutine :
    (s : CcoState) (operator : Option String) (at : String) → IsRoutine s (logout_by s operator at)
unfolding logout_by with_log
logout_by-IsRoutine s none at = (refl, (refl, inl (refl, refl)))
logout_by-IsRoutine s (some o) at = (refl, (refl, inr (_, (inr (o, refl), (refl, refl)))))
