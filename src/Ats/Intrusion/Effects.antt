-- ===== src/Ats/Intrusion/Effects.antt =====
-- What an intrusion brings about, and that only the operator takes it back.
use railsentinel.Prelude.{
  ℕ, ◌≡◌, refl, inl, inr, ◌⊎◌, String, List, [], ◌∷◌, Option, none, some, true, not, ◌&&◌, All,
  arith, contains, contains-append, set_add, eq_iff, eq_refl, ltb, Bool-cases,
}
use railsentinel.Prelude.Map
use railsentinel.Prelude.Map.{Map, get-set, get-delete, is_some}
use railsentinel.Contracts.Types.{IntegrityClass, Message}
use railsentinel.Contracts.Topics.{nonempty}
use railsentinel.Ats.Runtime.{Runtime}
use railsentinel.Ats.SafetyGuard.{SafetyGuard, authorize, raise_alarm}
use railsentinel.Ats.Topology.{get_section}
use railsentinel.Ats.Topology.Network.{TrackSection}
use railsentinel.Ats.Fleet.{FleetRegistry, or_zero}
use railsentinel.Ats.Tsp.{inhibit}
use railsentinel.Ats.Tsp.Types.{TspController}
use railsentinel.Ats.Intrusion.{
  is_cleared, is_urgent, crossings_before, suspend, handle_incident, handle_in, handle, existing_or,
  distinct_onto, with_crossing, crossing_ids,
}
use railsentinel.Ats.Intrusion.Types.{
  IntrusionHandler, OpenIncident, Draw, confidence_threshold, min_dwell_ms,
}
use railsentinel.Contracts.Payloads.{IntrusionData}

-- Priority at a crossing is suspended.
abbrev pub IsSuspended : TspController → String → Type 0
IsSuspended t c = Map.has t.inhibited c ≡ true

inhibit-inhibited :
    (runtime : Runtime) (t : TspController) (g : SafetyGuard) (c reason : String)
    (cls : IntegrityClass) (event : String) (now : ℕ)
    → (inhibit runtime t g c reason cls event now).1.inhibited ≡ Map.set t.inhibited c reason
unfolding inhibit authorize
inhibit-inhibited runtime t g c reason cls event now = ground arith

-- Whatever the evidence, priority is suspended at each crossing of a list, and nowhere is it resumed.
suspend-IsSuspended :
    (runtime : Runtime) (draw : Draw) (t : TspController) (g : SafetyGuard) (reason : String)
    (cls : IntegrityClass) (event : String) (cs : List String) (c : String)
    → (contains cs c ≡ true) ⊎ IsSuspended t c
    → IsSuspended (suspend runtime draw t g reason cls event cs).1 c
unfolding suspend
suspend-IsSuspended runtime draw t g reason cls event [] c (inl i) = absurd (ground arith)
suspend-IsSuspended runtime draw t g reason cls event [] c (inr s) = s
suspend-IsSuspended runtime draw t g reason cls event (d ∷ ds) c h =
    let o = inhibit runtime t g d reason cls event draw.now in
    suspend-IsSuspended runtime draw o.1 o.2 reason cls event ds c (next h)
  where
    next :
        (contains (d ∷ ds) c ≡ true) ⊎ IsSuspended t c
        → (contains ds c ≡ true) ⊎ IsSuspended (inhibit runtime t g d reason cls event draw.now).1 c
    next i = ground (
      arith,
      inhibit-inhibited runtime t g d reason cls event draw.now,
      get-set t.inhibited d reason c,
      eq_iff d c,
      eq_iff c d,
      i,
    )

-- What holds of the crossing of a section, if it has one
abbrev pub ForCrossing : (String → Type 0) → Option String → Type 0
ForCrossing P none = Unit
ForCrossing P (some c) = P c

pub distinct_onto-contains :
    (seen xs : List String) (c : String)
    → (contains seen c ≡ true) ⊎ (contains xs c ≡ true)
    → contains (distinct_onto seen xs) c ≡ true
distinct_onto-contains seen [] c (inl h) = h
distinct_onto-contains seen [] c (inr h) = absurd (ground arith)
distinct_onto-contains seen (x ∷ xs) c h =
    distinct_onto-contains (set_add seen x) xs c
      (ground (arith, contains-append seen (x ∷ []) c, eq_iff x c, h))

contains-with_crossing :
    (o : Option String) (cs : List String) (c : String)
    → contains cs c ≡ true
    → contains (with_crossing o cs) c ≡ true
contains-with_crossing none cs c h = h
contains-with_crossing (some d) cs c h = ground arith

head_crossing :
    (P : String → Type 0) (o : Option String) (cs : List String)
    → ((c : String) → contains (with_crossing o cs) c ≡ true → P c)
    → ForCrossing P o
head_crossing P none cs k = tt
head_crossing P (some c) cs k = k c (ground (arith, eq_refl c))

pub crossing_ids-All :
    (P : String → Type 0) (ss : List TrackSection)
    → ((c : String) → contains (crossing_ids ss) c ≡ true → P c)
    → All (λ s. ForCrossing P (nonempty s.crossing_id)) ss
crossing_ids-All P [] k = tt
crossing_ids-All P (s ∷ ss) k = (
  head_crossing P (nonempty s.crossing_id) (crossing_ids ss) k,
  crossing_ids-All P ss
      (λ c h. k c (contains-with_crossing (nonempty s.crossing_id) (crossing_ids ss) c h)),
)

has-set :
    (m : Map OpenIncident) (k : String) (v : OpenIncident) (j : String)
    → Map.has m j ≡ true
    → Map.has (Map.set m k v) j ≡ true
has-set m k v j h = ground (arith, get-set m k v j, h)

module _ (runtime : Runtime) (draw : Draw) where
  pub handle_incident-IsSuspended :
      (h : IntrusionHandler) (g : SafetyGuard) (fleet : FleetRegistry) (msg : Message IntrusionData)
      (o : Option OpenIncident) (section : TrackSection) (id c : String)
      → (contains (crossings_before section msg.payload.section_id) c ≡ true) ⊎ IsSuspended h.tsp c
      → IsSuspended (handle_incident runtime draw h g fleet msg o section id).1.tsp c
  unfolding handle_incident
  handle_incident-IsSuspended h g fleet msg o section id c i =
      suspend-IsSuspended runtime draw h.tsp _ _ _ _
        (crossings_before section msg.payload.section_id) c i

  handle_incident-open :
      (h : IntrusionHandler) (g : SafetyGuard) (fleet : FleetRegistry) (msg : Message IntrusionData)
      (o : Option OpenIncident) (section : TrackSection) (id s : String)
      → Map.has h.open_incidents s ≡ true
      → Map.has (handle_incident runtime draw h g fleet msg o section id).1.open_incidents s ≡ true
  unfolding handle_incident
  handle_incident-open h g fleet msg o section id s i =
      has-set h.open_incidents msg.payload.section_id _ s i

  -- The two ways in which a message ends: the state stays as it was but for the guard, or there is an
  -- incident.
  handle_in_cases :
      (h : IntrusionHandler) (fleet : FleetRegistry) (msg : Message IntrusionData)
      (o : Option OpenIncident) (section : Option TrackSection) (id : String)
      → (((handle_in runtime draw h fleet msg o section id).1.tsp ≡ h.tsp)
          × ((handle_in runtime draw h fleet msg o section id).1.open_incidents ≡ h.open_incidents))
        ⊎ ((s : TrackSection) × (g : SafetyGuard) × (handle_in runtime draw h fleet msg o section id
              ≡ handle_incident runtime draw h g fleet msg o s id))
  unfolding handle_in
  handle_in_cases h fleet msg o none id = inl (refl, refl)
  handle_in_cases h fleet msg o (some s) id =
      let asked =
        authorize h.guard raise_alarm msg.env.class msg.env.id (runtime.to_iso draw.now) in
      elim (Bool-cases (is_cleared msg.payload.state)) [
        | inl clear ↦ inl (rw clear (refl, refl))
        | inr there ↦
            elim (Bool-cases
              (not (is_urgent msg.payload) && ltb (or_zero msg.payload.dwell_ms) min_dwell_ms)) [
                | inl brief ↦ inl (rw (there, brief) (refl, refl))
                | inr lasting ↦ elim (Bool-cases asked.0.permitted) [
                  | inr refused ↦ inl (rw (there, lasting, refused) (refl, refl))
                  | inl permitted ↦ inr (s, asked.1, rw (there, lasting, permitted) refl)
                ]
              ]
      ]

  handle_cases :
      (h : IntrusionHandler) (fleet : FleetRegistry) (msg : Message IntrusionData)
      → (((handle runtime draw h fleet msg).1.tsp ≡ h.tsp)
          × ((handle runtime draw h fleet msg).1.open_incidents ≡ h.open_incidents))
        ⊎ ((o : Option OpenIncident) × (s : TrackSection) × (g : SafetyGuard) × (id : String)
            × (handle runtime draw h fleet msg ≡ handle_incident runtime draw h g fleet msg o s id))
  unfolding handle
  handle_cases h fleet msg =
      let o = Map.get h.open_incidents msg.payload.section_id in
      let id = existing_or o (λ i. i.incident_id) draw.incident in
      elim (Bool-cases (ltb msg.payload.conf (confidence_threshold msg.payload.object_class))) [
        | inl low ↦ inl (rw low (refl, refl))
        | inr sure ↦ elim (handle_in_cases h fleet msg o (get_section msg.payload.section_id) id) [
          | inl (a, b) ↦ inl (rw sure (a, b))
          | inr (s, g, e) ↦ inr (o, s, g, id, rw sure e)
        ]
      ]

-- Whatever a message reports, a section stays open and priority stays suspended.
pub handle_keeps :
    (runtime : Runtime) (draw : Draw) (h : IntrusionHandler) (fleet : FleetRegistry)
    (msg : Message IntrusionData) (c s : String)
    → IsSuspended h.tsp c
    → Map.has h.open_incidents s ≡ true
    → IsSuspended (handle runtime draw h fleet msg).1.tsp c
      × (Map.has (handle runtime draw h fleet msg).1.open_incidents s ≡ true)
handle_keeps runtime draw h fleet msg c s i j = elim (handle_cases runtime draw h fleet msg) [
  | inl (a, b) ↦ (rw a i, rw b j)
  | inr (o, section, g, id, e) ↦ rw e (
    handle_incident-IsSuspended runtime draw h g fleet msg o section id c (inr i),
    handle_incident-open runtime draw h g fleet msg o section id s j,
  )
]
