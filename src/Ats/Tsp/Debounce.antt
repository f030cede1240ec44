-- ===== src/Ats/Tsp/Debounce.antt =====
-- A crossing is asked for priority once, until the controller answers or the debounce is over.
use railsentinel.Prelude.{
  ℕ, ◌-◌, ◌<◌, ◌≡◌, ◌≢◌, refl, sym, String, List, [], ◌∷◌, ◌∙◌, Option, none, some, Bool, true,
  false, All, arith, eq_iff, eq_refl,
}
use railsentinel.Prelude.Map
use railsentinel.Prelude.Map.{Map, get-set}
use railsentinel.Contracts.Types.{IntegrityClass}
use railsentinel.Contracts.Topics.{nonempty}
use railsentinel.Ats.Runtime.{Runtime}
use railsentinel.Ats.SafetyGuard.{SafetyGuard}
use railsentinel.Ats.Topology.{get_section, get_crossing}
use railsentinel.Ats.Topology.Network.{TrackSection, Crossing}
use railsentinel.Ats.Fleet.{TrainState}
use railsentinel.Ats.Tsp.{
  observe, release, inhibit, still_flying, evaluate_delay, evaluate_crossing, evaluate_at,
  evaluate_named, evaluate_in, evaluate, request,
}
use railsentinel.Ats.Tsp.Types.{
  TspController, TspDecision, TspEvaluation, skipped, decided, Eta, Flight, CrossingFeedback,
  request_debounce_ms,
}
use railsentinel.Ats.Tsp.Eligible.{IsEligible, evaluate-IsEligible}

abbrev is_decided : TspEvaluation → Bool
is_decided (skipped reason eta) = false
is_decided (decided d eta id) = true

-- An evaluation that decides nothing leaves the controller as it was.
abbrev Moves : TspController → TspEvaluation × TspController × SafetyGuard → Type 0
Moves t (e, t', g') = is_decided e ≡ false → t' ≡ t

-- What the controller goes through while a request is in flight, outcomes apart.
pub data Event : Type 0 where
  evaluated : TrainState → IntegrityClass → String → ℕ → Event
  observed : CrossingFeedback → Event
  inhibited : String → String → IntegrityClass → String → ℕ → Event
  released : String → Event

-- The event is within the debounce after the request.
abbrev pub Within : ℕ → Event → Type 0
Within start (evaluated train cls event now) = now - start < request_debounce_ms
Within start _ = Unit

abbrev pub with_decision : TspEvaluation → List TspDecision → List TspDecision
with_decision (skipped reason eta) ds = ds
with_decision (decided d eta id) ds = d ∷ ds

module _ (runtime : Runtime) where
  -- The decisions that a series of events brings about
  unfoldable pub decisions : TspController → SafetyGuard → List Event → List TspDecision
  decisions t g [] = []
  decisions t g (evaluated train cls event now ∷ es) =
      let (e, t', g') = evaluate runtime t g train cls event now in
      with_decision e (decisions t' g' es)
  decisions t g (observed fb ∷ es) = decisions (observe t fb) g es
  decisions t g (inhibited crossing reason cls event now ∷ es) =
      let (ok, t', g') = inhibit runtime t g crossing reason cls event now in decisions t' g' es
  decisions t g (released crossing ∷ es) = decisions (release t crossing) g es

  evaluate_delay-Moves :
      (t : TspController) (g : SafetyGuard) (train : TrainState) (section : TrackSection)
      (crossing : Crossing) (cls : IntegrityClass) (event : String) (now : ℕ)
      → Moves t (evaluate_delay runtime t g train section crossing cls event now)
  unfolding evaluate_delay request
  evaluate_delay-Moves t g train section crossing cls event now = ground arith

  evaluate_crossing-Moves :
      (t : TspController) (g : SafetyGuard) (train : TrainState) (section : TrackSection)
      (crossing : Crossing) (o : Option String) (f : Option Flight) (cls : IntegrityClass)
      (event : String) (now : ℕ)
      → Moves t (evaluate_crossing runtime t g train section crossing o f cls event now)
  unfolding evaluate_crossing
  evaluate_crossing-Moves t g train section crossing (some reason) f cls event now = λ h. refl
  evaluate_crossing-Moves t g train section crossing none f cls event now =
      ground (arith, evaluate_delay-Moves t g train section crossing cls event now)

  evaluate_at-Moves :
      (t : TspController) (g : SafetyGuard) (train : TrainState) (section : TrackSection)
      (o : Option Crossing) (cls : IntegrityClass) (event : String) (now : ℕ)
      → Moves t (evaluate_at runtime t g train section o cls event now)
  unfolding evaluate_at
  evaluate_at-Moves t g train section none cls event now = λ h. refl
  evaluate_at-Moves t g train section (some crossing) cls event now =
      evaluate_crossing-Moves t g train section crossing (Map.get t.inhibited crossing.id)
        (still_flying (Map.get t.in_flight crossing.id) now) cls event now

  evaluate_named-Moves :
      (t : TspController) (g : SafetyGuard) (train : TrainState) (section : TrackSection)
      (o : Option String) (cls : IntegrityClass) (event : String) (now : ℕ)
      → Moves t (evaluate_named runtime t g train section o cls event now)
  unfolding evaluate_named
  evaluate_named-Moves t g train section none cls event now = λ h. refl
  evaluate_named-Moves t g train section (some name) cls event now =
      evaluate_at-Moves t g train section (get_crossing name) cls event now

  evaluate_in-Moves :
      (t : TspController) (g : SafetyGuard) (train : TrainState) (o : Option TrackSection)
      (cls : IntegrityClass) (event : String) (now : ℕ)
      → Moves t (evaluate_in runtime t g train o cls event now)
  unfolding evaluate_in
  evaluate_in-Moves t g train none cls event now = λ h. refl
  evaluate_in-Moves t g train (some section) cls event now =
      evaluate_named-Moves t g train section (nonempty section.crossing_id) cls event now

  evaluate-Moves :
      (t : TspController) (g : SafetyGuard) (train : TrainState) (cls : IntegrityClass)
      (event : String) (now : ℕ)
      → Moves t (evaluate runtime t g train cls event now)
  unfolding evaluate
  evaluate-Moves t g train cls event now =
      evaluate_in-Moves t g train (get_section train.section_id) cls event now

  -- The crossing has a request in flight that was made at `start`.
  abbrev Flies : TspController → String → ℕ → Type 0
  Flies t c start = (f : Flight) × (Map.get t.in_flight c ≡ some f) × (f.at ≡ start)

  eligible-Flies :
      (t : TspController) (train : TrainState) (cls : IntegrityClass) (now : ℕ) (t' : TspController)
      (d : TspDecision) (eta : Eta) (id : String)
      → IsEligible t train cls now t' d eta id
      → Flies t' d.crossing_id now
  eligible-Flies t train cls now t' d eta id e = (
    record { request_id = id; at = now; train_id = train.train_id },
    rw (e.due.in_flight, e.due.for_crossing)
        (ground (
          arith,
          get-set t.in_flight e.crossing.id
              (record { request_id = id; at = now; train_id = train.train_id }) e.crossing.id,
          eq_refl e.crossing.id,
        )),
    refl,
  )

  -- Another decision within the debounce is for another crossing, and the request stays in flight.
  eligible_elsewhere :
      (t : TspController) (train : TrainState) (cls : IntegrityClass) (now : ℕ) (t' : TspController)
      (d : TspDecision) (eta : Eta) (id c : String) (start : ℕ)
      → Flies t c start
      → now - start < request_debounce_ms
      → IsEligible t train cls now t' d eta id
      → (d.crossing_id ≢ c) × Flies t' c start
  eligible_elsewhere t train cls now t' d eta id c start (f, fl, s) w e =
      let ne : e.crossing.id ≢ c =
        λ p. absurd (ground (arith, clash (rw p at (e.free.no_flight)))) in
      (
        (λ p. ne (sym e.due.for_crossing ∙ p)),
        (
          f,
          rw (e.due.in_flight) (
              ground (
                arith,
                get-set t.in_flight e.crossing.id
                    (record { request_id = id; at = now; train_id = train.train_id }) c,
                eq_iff e.crossing.id c,
                ne,
              )),
          s,
        ),
      )
    where
      clash : still_flying (Map.get t.in_flight c) now ≡ none → some f ≡ none
      clash h = ground (arith, fl, s, w, h)

  after_evaluation :
      (t : TspController) (train : TrainState) (cls : IntegrityClass) (now : ℕ) (c : String)
      (start : ℕ) (o : TspEvaluation × TspController × SafetyGuard) (ds : List TspDecision)
      → Flies t c start
      → now - start < request_debounce_ms
      → Moves t o
      → ((d : TspDecision) (eta : Eta) (id : String)
          → o.0 ≡ decided d eta id
          → IsEligible t train cls now o.1 d eta id)
      → (Flies o.1 c start → All (λ d. d.crossing_id ≢ c) ds)
      → All (λ d. d.crossing_id ≢ c) (with_decision o.0 ds)
  after_evaluation t train cls now c start (skipped reason eta, t', g') ds f w m e k =
      k (rw (m refl) f)
  after_evaluation t train cls now c start (decided d eta id, t', g') ds f w m e k =
      let (ne, f') = eligible_elsewhere t train cls now t' d eta id c start f w (e d eta id refl) in
      (ne, k f')

  inhibit-in_flight :
      (t : TspController) (g : SafetyGuard) (crossing reason : String) (cls : IntegrityClass)
      (event : String) (now : ℕ)
      → (inhibit runtime t g crossing reason cls event now).1.in_flight ≡ t.in_flight
  unfolding inhibit
  inhibit-in_flight t g crossing reason cls event now = ground arith

  decisions_elsewhere :
      (t : TspController) (g : SafetyGuard) (c : String) (start : ℕ) (es : List Event)
      → Flies t c start
      → All (Within start) es
      → All (λ d. d.crossing_id ≢ c) (decisions t g es)
  unfolding decisions observe release
  decisions_elsewhere t g c start [] f w = tt
  decisions_elsewhere t g c start (observed fb ∷ es) f w =
      decisions_elsewhere (observe t fb) g c start es f w.1
  decisions_elsewhere t g c start (inhibited crossing reason cls event now ∷ es) f w =
      decisions_elsewhere (inhibit runtime t g crossing reason cls event now).1
        (inhibit runtime t g crossing reason cls event now).2 c start es
        (rw (inhibit-in_flight t g crossing reason cls event now) f) w.1
  decisions_elsewhere t g c start (released crossing ∷ es) f w =
      decisions_elsewhere (release t crossing) g c start es f w.1
  decisions_elsewhere t g c start (evaluated train cls event now ∷ es) f w =
      let o = evaluate runtime t g train cls event now in
      after_evaluation t train cls now c start o (decisions o.1 o.2 es) f w.0
        (evaluate-Moves t g train cls event now)
        (evaluate-IsEligible runtime t g train cls event now)
        (λ f'. decisions_elsewhere o.1 o.2 c start es f' w.1)

  -- Once priority is requested for a crossing, whatever trains are evaluated in the next 20 seconds,
  -- whatever feedback comes and whatever is inhibited or released, no further request is made for that
  -- crossing, as long as no outcome of the request is recorded.
  pub debounced :
      (t : TspController) (g : SafetyGuard) (train : TrainState) (cls : IntegrityClass)
      (event : String) (now : ℕ) (d : TspDecision) (eta : Eta) (id : String) (es : List Event)
      → (evaluate runtime t g train cls event now).0 ≡ decided d eta id
      → All (Within now) es
      → let (e, t', g') = evaluate runtime t g train cls event now in
        All (λ d'. d'.crossing_id ≢ d.crossing_id) (decisions t' g' es)
  debounced t g train cls event now d eta id es h w =
      let (e, t', g') = evaluate runtime t g train cls event now in
      decisions_elsewhere t' g' d.crossing_id now es
        (eligible-Flies t train cls now t' d eta id
          (evaluate-IsEligible runtime t g train cls event now d eta id h))
        w
