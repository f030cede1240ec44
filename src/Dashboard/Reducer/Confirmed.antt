-- ===== src/Dashboard/Reducer/Confirmed.antt =====
-- apps/cco-dashboard/src/state/reducer.ts: the release of a restriction, with its double confirmation.
use mathlib.Core.Path.{subst}
use railsentinel.Prelude.{
  ◌≡◌, ◌≢◌, refl, ap, sym, ◌∙◌, ◌⊎◌, inl, inr, String, List, [], ◌∷◌, ◌++◌, All, Option, none, some,
  Bool, true, false, not, ◌||◌, str_eq, eq_iff, find, arith, Bool-cases,
}
use railsentinel.Prelude.Map.{is_some}
use railsentinel.Dashboard.State.{
  Stamp, RestrictionState, CcoState, CcoAction, login, logout, tick, alarm_ack, alarm_action,
  restriction_clear, radio_call, advise_regulation, select_train, set_sim_rate,
}
use railsentinel.Dashboard.Line.{Stop}
use railsentinel.Dashboard.Advance.{with_log}
use railsentinel.Dashboard.Operator.{is_valid_operator_id, normalize_operator_id}
use railsentinel.Dashboard.Reducer.Routine.{
  ack_by-IsRoutine, act_by-IsRoutine, call_by-IsRoutine, advice_by-IsRoutine, select_by-IsRoutine,
  logout_by-IsRoutine,
}
use railsentinel.Dashboard.Reducer.Safety.{advance_trains-restrictions}
use railsentinel.Dashboard.Reducer.{
  on_duty, clear_restriction, clear_by, cco_reducer, find_alarm, find_restriction,
}

-- One list is another but for one restriction, the first with an id, that is replaced at its place.
abbrev pub ClearsOne :
    String
    → RestrictionState
    → RestrictionState
    → List RestrictionState
    → List RestrictionState
    → Type 0
ClearsOne id r r' rs rs' =
    (before after : List RestrictionState) × (rs ≡ before ++ r ∷ after)
    × (rs' ≡ before ++ r' ∷ after)
    × (r.id ≡ id)
    × All (λ q. q.id ≢ id) before

clear_restriction-ClearsOne :
    (id : String) (stamp : Stamp) (rs : List RestrictionState) (r : RestrictionState)
    → find (λ q. str_eq q.id id) rs ≡ some r
    → ClearsOne id r (record r { cleared = some stamp }) rs (clear_restriction id stamp rs)
unfolding clear_restriction
clear_restriction-ClearsOne id stamp [] r h = absurd (ground arith)
clear_restriction-ClearsOne id stamp (q ∷ rs) r h = elim (Bool-cases (str_eq q.id id)) [
  | inl here ↦
      let same : q ≡ r = ground (arith, h) in
      (
        [],
        rs,
        ap (λ x. x ∷ rs) same,
        rw here (ap (λ (x : RestrictionState). record x { cleared = some stamp } ∷ rs) same),
        ap (λ (x : RestrictionState). x.id) (sym same) ∙ (eq_iff q.id id).0 here,
        tt,
      )
  | inr there ↦
      let (before, after, e, e', named, others) =
        clear_restriction-ClearsOne id stamp rs r (rw there at h) in
      (
        q ∷ before,
        after,
        ap (λ x. q ∷ x) e,
        rw there (ap (λ x. q ∷ x) e'),
        named,
        ((λ p. absurd (ground (arith, eq_iff q.id id))), others),
      )
]

-- with the id of the restriction that was found
clear_found-ClearsOne :
    (id : String) (stamp : Stamp) (rs : List RestrictionState) (r : RestrictionState)
    → find (λ q. str_eq q.id id) rs ≡ some r
    → ClearsOne id r (record r { cleared = some stamp }) rs (clear_restriction r.id stamp rs)
clear_found-ClearsOne id stamp rs r h =
    let one = clear_restriction-ClearsOne id stamp rs r h in
    let (before, after, e, e', named, others) = one in
    subst
      (λ k. ClearsOne id r (record r { cleared = some stamp }) rs (clear_restriction k stamp rs))
      (sym named) one

-- The action is the release of a restriction in force by the operator on duty, who has seen the
-- pictures of the place and typed the own id, and nothing but that restriction changes.
pub record IsConfirmed (to_upper_case : String → String) (s : CcoState) (a : CcoAction)
    (rs : List RestrictionState) : Type 0 where
  pub id : String
  pub confirm : String
  pub at : String
  pub operator : String
  pub restriction : RestrictionState
  pub action_eq : a ≡ restriction_clear id confirm true at
  pub operator_eq : s.operator ≡ some operator
  pub typed_eq : normalize_operator_id to_upper_case confirm ≡ operator
  pub found_eq : find_restriction s id ≡ some restriction
  pub in_force : restriction.cleared ≡ none
  pub result :
      ClearsOne id restriction
        (record restriction { cleared = some (record { by = operator; at = at }) })
        s.restrictions
        rs

on_duty-some :
    (operator : Option String) (o : String) → on_duty operator ≡ some o → operator ≡ some o
unfolding on_duty
on_duty-some none o h = h
on_duty-some (some p) o h = ground arith

not_is_some : {A : Type 0} (o : Option A) → is_some o ≡ false → o ≡ none
not_is_some none h = refl
not_is_some (some a) h = ground arith

clear_by-IsConfirmed :
    (to_upper_case : String → String) (s : CcoState) (id confirm at : String) (cctv : Bool)
    (duty : Option String) (found : Option RestrictionState)
    → on_duty s.operator ≡ duty
    → find_restriction s id ≡ found
    → ((clear_by s duty found (normalize_operator_id to_upper_case confirm) cctv at).restrictions
        ≡ s.restrictions)
      ⊎ IsConfirmed to_upper_case s
          (restriction_clear id confirm cctv at)
          (clear_by s duty found (normalize_operator_id to_upper_case confirm) cctv at).restrictions
unfolding clear_by with_log
clear_by-IsConfirmed up s id confirm at cctv none found hd hf = inl refl
clear_by-IsConfirmed up s id confirm at cctv (some o) none hd hf = inl refl
clear_by-IsConfirmed up s id confirm at true (some o) (some r) hd hf =
    let typed = normalize_operator_id up confirm in
    elim (Bool-cases (is_some r.cleared || not true || not (str_eq typed o))) [
      | inl e ↦ rw e (inl refl)
      | inr e ↦ rw e (
          inr (record {
            id = id;
            confirm = confirm;
            at = at;
            operator = o;
            restriction = r;
            action_eq = refl;
            operator_eq = on_duty-some s.operator o hd;
            typed_eq = ground (arith, eq_iff typed o);
            found_eq = hf;
            in_force = not_is_some r.cleared (ground arith);
            result = clear_found-ClearsOne id (record { by = o; at = at }) s.restrictions r hf;
          }))
    ]
clear_by-IsConfirmed up s id confirm at false (some o) (some r) hd hf =
    let typed = normalize_operator_id up confirm in
    elim (Bool-cases (is_some r.cleared)) [ inl e ↦ rw e (inl refl) | inr e ↦ rw e (inl refl) ]

module _ (to_upper_case : String → String) (first : Stop) (stops : List Stop) where
  -- No action changes the restrictions but a release of one in force, by the operator on duty, with
  -- the place seen on camera and the operator's own id typed; it marks that restriction as cleared by that
  -- operator then, and every other one stays as it was, at its place.
  pub restrictions-IsConfirmed :
      (s : CcoState) (a : CcoAction)
      → ((cco_reducer to_upper_case first stops s a).restrictions ≡ s.restrictions)
        ⊎ IsConfirmed to_upper_case s a (cco_reducer to_upper_case first stops s a).restrictions
  unfolding cco_reducer with_log
  restrictions-IsConfirmed s (tick dt at) = inl (advance_trains-restrictions s dt at)
  restrictions-IsConfirmed s (login raw at) =
      elim (Bool-cases (is_some s.operator || not (is_valid_operator_id to_upper_case raw))) [
        | inl e ↦ rw e (inl refl)
        | inr e ↦ rw e (inl refl)
      ]
  restrictions-IsConfirmed s (logout at) = inl (logout_by-IsRoutine s s.operator at).1.0
  restrictions-IsConfirmed s (alarm_ack id at) =
      inl (ack_by-IsRoutine s (on_duty s.operator) (find_alarm s id) at).1.0
  restrictions-IsConfirmed s (alarm_action id label at) =
      inl (act_by-IsRoutine s (on_duty s.operator) (find_alarm s id) label at).1.0
  restrictions-IsConfirmed s (restriction_clear id confirm cctv at) =
      clear_by-IsConfirmed to_upper_case s id confirm at cctv (on_duty s.operator)
        (find_restriction s id) refl refl
  restrictions-IsConfirmed s (radio_call id at) =
      inl (call_by-IsRoutine s (on_duty s.operator) id at).1.0
  restrictions-IsConfirmed s (advise_regulation id at) =
      inl
        (advice_by-IsRoutine first stops s (on_duty s.operator)
          (find (λ t. str_eq t.id id) s.trains) at).1.0
  restrictions-IsConfirmed s (select_train id) = inl (select_by-IsRoutine s id).1.0
  restrictions-IsConfirmed s (set_sim_rate rate) = inl refl
