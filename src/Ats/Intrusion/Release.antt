-- ===== src/Ats/Intrusion/Release.antt =====
-- services/ats-core/src/intrusion.ts: the release by the operator, and the open incidents.
use railsentinel.Prelude.{String, List, [], ◌∷◌, Option, none, some, Bool, true, false}
use railsentinel.Prelude.Map
use railsentinel.Prelude.Map.{Map}
use railsentinel.Ats.Tsp.{release}
use railsentinel.Ats.Tsp.Types.{TspController}
use railsentinel.Ats.Intrusion.Types.{IntrusionHandler, OpenIncident}

unfoldable pub release_all : TspController → List String → TspController
unfolding release
release_all t [] = t
release_all t (c ∷ cs) = release_all (release t c) cs

-- with the incident that is open for the section
unfoldable pub clear_incident :
    IntrusionHandler → String → Option OpenIncident → (Bool × List String) × IntrusionHandler
unfolding release_all
clear_incident h section_id none = ((false, []), h)
clear_incident h section_id (some i) = (
  (true, i.crossings),
  record h {
    tsp = release_all h.tsp i.crossings;
    open_incidents = Map.delete h.open_incidents section_id;
  },
)

unfoldable pub operator_clear : IntrusionHandler → String → (Bool × List String) × IntrusionHandler
unfolding clear_incident
operator_clear h section_id = clear_incident h section_id (Map.get h.open_incidents section_id)

unfoldable pub open_sections : IntrusionHandler → List String
open_sections h = Map.keys h.open_incidents
