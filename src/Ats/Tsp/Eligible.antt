-- ===== src/Ats/Tsp/Eligible.antt =====
-- What is known of a train for which priority is requested.
use mathlib.Core.Path.{subst}
use railsentinel.Prelude.{
  ℕ, ◌≤◌, ◌≡◌, refl, sym, String, Option, none, some, inl, inr, false, arith, Bool-cases,
  if◌then◌else◌,
}
use railsentinel.Prelude.Int.{pos, ltb_ℤ}
use railsentinel.Prelude.Map
use railsentinel.Prelude.Map.{Map, get-set}
use railsentinel.Contracts.Types.{IntegrityClass, sil2, rank}
use railsentinel.Contracts.Topics.{nonempty}
use railsentinel.Ats.Runtime.{Runtime}
use railsentinel.Ats.SafetyGuard.{SafetyGuard, authorize, grant_tsp_request}
use railsentinel.Ats.SafetyGuard.Partition.{authorize_exact}
use railsentinel.Ats.Topology.{get_section, get_crossing}
use railsentinel.Ats.Topology.Network.{TrackSection, Crossing}
use railsentinel.Ats.Fleet.{TrainState}
use railsentinel.Ats.Tsp.{
  eta_of, eta_above, green_comes, delay_of, still_flying, request, evaluate_delay,
  evaluate_crossing, evaluate_at, evaluate_named, evaluate_in, evaluate,
}
use railsentinel.Ats.Tsp.Types.{
  TspController, TspDecision, TspEvaluation, skipped, decided, train_stale, Eta, Flight,
  min_delay_for_priority_s, request_horizon_s,
}

-- What an evaluation has left in the controller, and the decision that it made
abbrev pub Outcome : Type 0
Outcome = TspEvaluation × TspController × SafetyGuard

-- What holds from the delay on
pub record IsDue (t : TspController) (train : TrainState) (section : TrackSection)
    (crossing : Crossing) (cls : IntegrityClass) (now : ℕ) (t' : TspController) (d : TspDecision)
    (eta : Eta) (id : String) : Type 0 where
  pub for_crossing : d.crossing_id ≡ crossing.id
  pub for_train : d.train_id ≡ train.train_id
  pub late : ltb_ℤ (delay_of train.schedule_dev_s) (pos min_delay_for_priority_s) ≡ false
  pub eta_known : eta ≡ eta_of section train
  pub near : eta_above eta request_horizon_s ≡ false
  pub needed : green_comes (Map.get t.feedback crossing.id) eta ≡ false
  pub evidence : rank sil2 ≤ rank cls
  pub in_flight :
      t'.in_flight
      ≡ Map.set t.in_flight crossing.id
          (record { request_id = id; at = now; train_id = train.train_id })

-- What holds from the inhibition on
pub record IsFree (t : TspController) (train : TrainState) (crossing : Crossing) (now : ℕ)
    : Type 0 where
  pub not_inhibited : Map.get t.inhibited crossing.id ≡ none
  pub fresh : train.stale ≡ false
  pub no_flight : still_flying (Map.get t.in_flight crossing.id) now ≡ none

-- A train that is eligible for priority at a crossing
pub record IsEligible (t : TspController) (train : TrainState) (cls : IntegrityClass) (now : ℕ)
    (t' : TspController) (d : TspDecision) (eta : Eta) (id : String) : Type 0 where
  pub section : TrackSection
  pub on_section : get_section train.section_id ≡ some section
  pub crossing_name : String
  pub has_crossing : nonempty section.crossing_id ≡ some crossing_name
  pub crossing : Crossing
  pub registered : get_crossing crossing_name ≡ some crossing
  pub free : IsFree t train crossing now
  pub due : IsDue t train section crossing cls now t' d eta id

module _ (runtime : Runtime) where
  request-IsDue :
      (t : TspController) (g : SafetyGuard) (train : TrainState) (section : TrackSection)
      (crossing : Crossing) (cls : IntegrityClass) (now : ℕ) {d : TspDecision} {eta : Eta}
      {id : String}
      → ltb_ℤ (delay_of train.schedule_dev_s) (pos min_delay_for_priority_s) ≡ false
      → eta_above (eta_of section train) request_horizon_s ≡ false
      → green_comes (Map.get t.feedback crossing.id) (eta_of section train) ≡ false
      → rank sil2 ≤ rank cls
      → (request runtime t g train crossing (eta_of section train) now).0 ≡ decided d eta id
      → IsDue t train section crossing cls now
          (request runtime t g train crossing (eta_of section train) now).1
          d
          eta
          id
  unfolding request
  request-IsDue t g train section crossing cls now {d} {eta} {id} late near needed evidence h =
      let same : eta_of section train ≡ eta = ground (arith, h) in
      record {
        for_crossing = ground (arith, h);
        for_train = ground (arith, h);
        late = late;
        eta_known = sym same;
        near = rw (← same) near;
        needed = rw (← same) needed;
        evidence = evidence;
        in_flight = ground (arith, h);
      }

  evaluate_delay-IsDue :
      (t : TspController) (g : SafetyGuard) (train : TrainState) (section : TrackSection)
      (crossing : Crossing) (cls : IntegrityClass) (event : String) (now : ℕ) {d : TspDecision}
      {eta : Eta} {id : String}
      → (evaluate_delay runtime t g train section crossing cls event now).0 ≡ decided d eta id
      → IsDue t train section crossing cls now
          (evaluate_delay runtime t g train section crossing cls event now).1
          d
          eta
          id
  unfolding evaluate_delay
  evaluate_delay-IsDue t g train section crossing cls event now h =
      let asked = authorize g grant_tsp_request cls event (runtime.to_iso now) in
      elim (Bool-cases (ltb_ℤ (delay_of train.schedule_dev_s) (pos min_delay_for_priority_s))) [
        | inl early ↦ absurd (ground arith)
        | inr late ↦ elim (Bool-cases (eta_above (eta_of section train) request_horizon_s)) [
          | inl far ↦ absurd (ground arith)
          | inr near ↦
              elim (Bool-cases
                (green_comes (Map.get t.feedback crossing.id) (eta_of section train))) [
                  | inl comes ↦ absurd (ground arith)
                  | inr needed ↦ elim (Bool-cases asked.0.permitted) [
                    | inr barred ↦ absurd (ground arith)
                    | inl ok ↦
                        rw (late, near, needed, ok)
                          (request-IsDue t asked.1 train section crossing cls now late near needed
                            ((authorize_exact g grant_tsp_request cls event (runtime.to_iso now)).0
                              ok)
                            (rw (late, near, needed, ok) at h))
                  ]
                ]
        ]
      ]

  evaluate_crossing-IsDue :
      (t : TspController) (g : SafetyGuard) (train : TrainState) (section : TrackSection)
      (crossing : Crossing) (o : Option String) (f : Option Flight) (cls : IntegrityClass)
      (event : String) (now : ℕ) {d : TspDecision} {eta : Eta} {id : String}
      → (evaluate_crossing runtime t g train section crossing o f cls event now).0
        ≡ decided d eta id
      → (o ≡ none)
        × (train.stale ≡ false)
        × (f ≡ none)
        × IsDue t train section crossing cls now
            (evaluate_crossing runtime t g train section crossing o f cls event now).1
            d
            eta
            id
  unfolding evaluate_crossing
  evaluate_crossing-IsDue t g train section crossing (some reason) f cls event now h =
      absurd (ground arith)
  evaluate_crossing-IsDue t g train section crossing none (some f) cls event now h =
      absurd (ground arith)
  evaluate_crossing-IsDue t g train section crossing none none cls event now {d} {eta} {id} h =
      elim (Bool-cases train.stale) [
        | inl stale ↦ absurd (ground arith)
        | inr fresh ↦ (
          refl,
          fresh,
          refl,
          subst
              (λ b.
                IsDue t train section crossing cls now
                  (if b
                    then (skipped train_stale none, t, g)
                    else evaluate_delay runtime t g train section crossing cls event now).1
                  d eta id)
              (sym fresh)
              (evaluate_delay-IsDue t g train section crossing cls event now (rw fresh at h)),
        )
      ]

  evaluate_at-IsDue :
      (t : TspController) (g : SafetyGuard) (train : TrainState) (section : TrackSection)
      (o : Option Crossing) (cls : IntegrityClass) (event : String) (now : ℕ) {d : TspDecision}
      {eta : Eta} {id : String}
      → (evaluate_at runtime t g train section o cls event now).0 ≡ decided d eta id
      → (crossing : Crossing) × (o ≡ some crossing)
        × IsFree t train crossing now
        × IsDue t train section crossing cls now
            (evaluate_at runtime t g train section o cls event now).1
            d
            eta
            id
  unfolding evaluate_at
  evaluate_at-IsDue t g train section none cls event now h = absurd (ground arith)
  evaluate_at-IsDue t g train section (some crossing) cls event now h =
      let (a, b, c, due) =
        evaluate_crossing-IsDue t g train section crossing (Map.get t.inhibited crossing.id)
          (still_flying (Map.get t.in_flight crossing.id) now) cls event now h in
      (crossing, refl, record { not_inhibited = a; fresh = b; no_flight = c }, due)

  evaluate_named-IsEligible :
      (section : TrackSection) (o : Option String) (t : TspController) (g : SafetyGuard)
      (train : TrainState) (cls : IntegrityClass) (event : String) (now : ℕ) {d : TspDecision}
      {eta : Eta} {id : String}
      → get_section train.section_id ≡ some section
      → nonempty section.crossing_id ≡ o
      → (evaluate_named runtime t g train section o cls event now).0 ≡ decided d eta id
      → IsEligible t train cls now
          (evaluate_named runtime t g train section o cls event now).1
          d
          eta
          id
  unfolding evaluate_named
  evaluate_named-IsEligible section none t g train cls event now e e' h = absurd (ground arith)
  evaluate_named-IsEligible section (some name) t g train cls event now e e' h =
      let (crossing, e'', free, due) =
        evaluate_at-IsDue t g train section (get_crossing name) cls event now h in
      record {
        section = section;
        on_section = e;
        crossing_name = name;
        has_crossing = e';
        crossing = crossing;
        registered = e'';
        free = free;
        due = due;
      }

  evaluate_in-IsEligible :
      (o : Option TrackSection) (t : TspController) (g : SafetyGuard) (train : TrainState)
      (cls : IntegrityClass) (event : String) (now : ℕ) {d : TspDecision} {eta : Eta} {id : String}
      → get_section train.section_id ≡ o
      → (evaluate_in runtime t g train o cls event now).0 ≡ decided d eta id
      → IsEligible t train cls now (evaluate_in runtime t g train o cls event now).1 d eta id
  unfolding evaluate_in
  evaluate_in-IsEligible none t g train cls event now e h = absurd (ground arith)
  evaluate_in-IsEligible (some section) t g train cls event now e h =
      evaluate_named-IsEligible section (nonempty section.crossing_id) t g train cls event now e
        refl h

  -- Priority is requested for a train only at the registered crossing of its own section, which is not
  -- inhibited and has no request in flight that is younger than the debounce, if its position is not
  -- stale, it is at least 45 seconds late and no more than 25 seconds away, the controller does not
  -- show green in time as it is, and the evidence is of class sil2 at least. The decision names the
  -- crossing and the train, and the request is entered as in flight, at the time of the evaluation.
  pub evaluate-IsEligible :
      (t : TspController) (g : SafetyGuard) (train : TrainState) (cls : IntegrityClass)
      (event : String) (now : ℕ) (d : TspDecision) (eta : Eta) (id : String)
      → (evaluate runtime t g train cls event now).0 ≡ decided d eta id
      → IsEligible t train cls now (evaluate runtime t g train cls event now).1 d eta id
  unfolding evaluate
  evaluate-IsEligible t g train cls event now d eta id h =
      evaluate_in-IsEligible (get_section train.section_id) t g train cls event now refl h
