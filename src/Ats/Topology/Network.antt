-- ===== src/Ats/Topology/Network.antt =====
-- The sections and the crossings of the network, as services/ats-core/src/topology.ts lists them.
use railsentinel.Prelude.{ℕ, String, List, [], ◌∷◌, Option, none, some, Bool, true, false}
use railsentinel.Contracts.Types.{Line, l1, l2}

pub record TrackSection : Type 0 where
  pub id : String
  pub line : Line
  pub name : String
  pub length_m : ℕ
  pub street_running : Bool
  pub line_speed_kmh : ℕ
  pub next : Option String
  pub crossing_id : Option String
  pub stop_id : Option String

pub record Crossing : Type 0 where
  pub id : String
  pub name : String
  pub ntcip_endpoint : String
  pub vlt_phase : ℕ
  pub cross_street : String

abbrev pub sections : List TrackSection
sections =
    record {
      id = "L1-S01";
      line = l1;
      name = "Barreiros - Sao Vicente Centro";
      length_m = 2400;
      street_running = false;
      line_speed_kmh = 50;
      next = some "L1-S02";
      crossing_id = none;
      stop_id = some "BARREIROS";
    }
    ∷ record {
      id = "L1-S02";
      line = l1;
      name = "Sao Vicente Centro - Portal";
      length_m = 2100;
      street_running = false;
      line_speed_kmh = 50;
      next = some "L1-S03";
      crossing_id = none;
      stop_id = some "SV-CENTRO";
    }
    ∷ record {
      id = "L1-S03";
      line = l1;
      name = "Portal - Conselheiro Nebias";
      length_m = 3100;
      street_running = false;
      line_speed_kmh = 60;
      next = some "L1-S04";
      crossing_id = none;
      stop_id = some "PORTAL";
    }
    ∷ record {
      id = "L1-S04";
      line = l1;
      name = "Conselheiro Nebias - Porto";
      length_m = 3900;
      street_running = false;
      line_speed_kmh = 50;
      next = some "L1-S01";
      crossing_id = some "XC-ANA-COSTA";
      stop_id = some "C-NEBIAS";
    }
    ∷ record {
      id = "L2-S11";
      line = l2;
      name = "Conselheiro Nebias - Ana Costa";
      length_m = 1200;
      street_running = true;
      line_speed_kmh = 30;
      next = some "L2-S12";
      crossing_id = some "XC-ANA-COSTA";
      stop_id = some "C-NEBIAS";
    }
    ∷ record {
      id = "L2-S12";
      line = l2;
      name = "Ana Costa - Francisco Glicerio";
      length_m = 1500;
      street_running = true;
      line_speed_kmh = 30;
      next = some "L2-S13";
      crossing_id = some "XC-F-GLICERIO";
      stop_id = some "ANA-COSTA";
    }
    ∷ record {
      id = "L2-S13";
      line = l2;
      name = "Francisco Glicerio - Campos Mello";
      length_m = 1400;
      street_running = true;
      line_speed_kmh = 25;
      next = some "L2-S14";
      crossing_id = some "XC-CAMPOS-MELLO";
      stop_id = some "F-GLICERIO";
    }
    ∷ record {
      id = "L2-S14";
      line = l2;
      name = "Campos Mello - Joao Pessoa";
      length_m = 1100;
      street_running = true;
      line_speed_kmh = 25;
      next = some "L2-S15";
      crossing_id = some "XC-JOAO-PESSOA";
      stop_id = some "CAMPOS-MELLO";
    }
    ∷ record {
      id = "L2-S15";
      line = l2;
      name = "Joao Pessoa - Amador Bueno";
      length_m = 900;
      street_running = true;
      line_speed_kmh = 20;
      next = some "L2-S16";
      crossing_id = none;
      stop_id = some "JOAO-PESSOA";
    }
    ∷ record {
      id = "L2-S16";
      line = l2;
      name = "Amador Bueno - Terminal Valongo";
      length_m = 1000;
      street_running = true;
      line_speed_kmh = 20;
      next = some "L2-S17";
      crossing_id = none;
      stop_id = some "AMADOR-BUENO";
    }
    ∷ record {
      id = "L2-S17";
      line = l2;
      name = "Valongo - Constituicao";
      length_m = 1300;
      street_running = true;
      line_speed_kmh = 25;
      next = some "L2-S11";
      crossing_id = some "XC-CONSTITUICAO";
      stop_id = some "VALONGO";
    }
    ∷ []

abbrev pub crossings : List Crossing
crossings =
    record {
      id = "XC-ANA-COSTA";
      name = "Av. Ana Costa x Conselheiro Nebias";
      ntcip_endpoint = "udp://10.60.12.21:161";
      vlt_phase = 2;
      cross_street = "Av. Ana Costa";
    }
    ∷ record {
      id = "XC-F-GLICERIO";
      name = "Av. Francisco Glicerio";
      ntcip_endpoint = "udp://10.60.12.22:161";
      vlt_phase = 4;
      cross_street = "Av. Francisco Glicerio";
    }
    ∷ record {
      id = "XC-CAMPOS-MELLO";
      name = "Rua Campos Mello";
      ntcip_endpoint = "udp://10.60.12.23:161";
      vlt_phase = 2;
      cross_street = "R. Campos Mello";
    }
    ∷ record {
      id = "XC-JOAO-PESSOA";
      name = "Rua Joao Pessoa";
      ntcip_endpoint = "udp://10.60.12.24:161";
      vlt_phase = 6;
      cross_street = "R. Joao Pessoa";
    }
    ∷ record {
      id = "XC-CONSTITUICAO";
      name = "Rua da Constituicao";
      ntcip_endpoint = "udp://10.60.12.25:161";
      vlt_phase = 2;
      cross_street = "R. da Constituicao";
    }
    ∷ []
