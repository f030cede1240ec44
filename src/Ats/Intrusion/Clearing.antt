-- ===== src/Ats/Intrusion/Clearing.antt =====
-- What the operator's release does.
use railsentinel.Prelude.{
  ◌≡◌, ◌≢◌, refl, ◌⊎◌, inl, inr, String, List, [], ◌∷◌, some, true, false, arith, contains, eq_iff,
}
use railsentinel.Prelude.Map
use railsentinel.Prelude.Map.{Map, get-delete}
use railsentinel.Ats.Tsp.{release}
use railsentinel.Ats.Tsp.Types.{TspController}
use railsentinel.Ats.Intrusion.Types.{IntrusionHandler, OpenIncident}
use railsentinel.Ats.Intrusion.Release.{release_all, clear_incident, operator_clear}

-- Priority at a crossing is not suspended.
abbrev pub IsResumed : TspController → String → Type 0
IsResumed t c = Map.has t.inhibited c ≡ false

release_all-IsResumed :
    (t : TspController) (cs : List String) (c : String)
    → (contains cs c ≡ true) ⊎ IsResumed t c
    → IsResumed (release_all t cs) c
unfolding release_all release
release_all-IsResumed t [] c (inl i) = absurd (ground arith)
release_all-IsResumed t [] c (inr r) = r
release_all-IsResumed t (d ∷ ds) c h =
    release_all-IsResumed (release t d) ds c
      (ground (arith, get-delete t.inhibited d c, eq_iff d c, h))

operator_clear_open :
    (h : IntrusionHandler) (section : String) (i : OpenIncident)
    → Map.get h.open_incidents section ≡ some i
    → (operator_clear h section).1 ≡ record h {
      tsp = release_all h.tsp i.crossings;
      open_incidents = Map.delete h.open_incidents section;
    }
unfolding operator_clear clear_incident
operator_clear_open h section i e = rw e refl

-- The release of one of two open incidents resumes priority at a crossing that both list, although the
-- other incident is still open and still lists it.
pub clear_overrides :
    (h : IntrusionHandler) (one other crossing : String) (i j : OpenIncident)
    → Map.get h.open_incidents one ≡ some i
    → Map.get h.open_incidents other ≡ some j
    → one ≢ other
    → contains i.crossings crossing ≡ true
    → contains j.crossings crossing ≡ true
    → let h' = (operator_clear h one).1 in
      (Map.get h'.open_incidents other ≡ some j) × IsResumed h'.tsp crossing
clear_overrides h one other crossing i j e e' ne m m' = rw (operator_clear_open h one i e) (
  ground (arith, get-delete h.open_incidents one other, eq_iff one other, ne, e'),
  release_all-IsResumed h.tsp i.crossings crossing (inl m),
)
