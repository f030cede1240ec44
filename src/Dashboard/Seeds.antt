-- ===== src/Dashboard/Seeds.antt =====
-- apps/cco-dashboard/src/data/mock.ts: the data with which a post starts. Positions are in units of the
-- loop and deviations in milliseconds, as in the state.
use railsentinel.Prelude.{ℕ, suc, ◌+◌, String, List, [], ◌∷◌, Option, none, some, Bool, true, false}
use railsentinel.Prelude.Int.{ℤ, pos, negsuc}
use railsentinel.Prelude.Text.{◌+++◌, decimal}
use railsentinel.Dashboard.State.{
  TrainColorVar, c_blue, c_orange, c_aqua, AlarmSeverity, critical, major, IntegrityClass, basic,
  TspAction, grant, revoke, denied, idle, LogKind, session, system,
}
use railsentinel.Dashboard.Line.{Stop, Section}

pub record TrainSeed : Type 0 where
  pub id : String
  pub color_var : TrainColorVar
  pub t : ℕ
  pub dev : ℤ
  pub occ : String

pub record AlarmSeed : Type 0 where
  pub id : String
  pub sev : AlarmSeverity
  pub title : String
  pub detail : String
  pub cls : IntegrityClass
  pub conf : Option String
  pub model : Option String
  pub ago_sec : ℕ
  pub actions : List String

pub record RestrictionSeed : Type 0 where
  pub id : String
  pub section_id : String
  pub kind : String
  pub reason : String
  pub cls : IntegrityClass
  pub ago_sec : ℕ

pub record TspSeed : Type 0 where
  pub crossing : String
  pub train : String
  pub action : TspAction
  pub strategy : Option String
  pub reason : String
  pub ago_sec : ℕ

-- `status` is 'ok' and `link` is 'up' when these hold.
pub record EdgeNode : Type 0 where
  pub id : String
  pub ok : Bool
  pub fps_tenths : Option ℕ
  pub link_up : Bool

pub record LogSeed : Type 0 where
  pub ago_sec : ℕ
  pub kind : LogKind
  pub operator : Option String
  pub text : String

abbrev pub seed_operator : String
seed_operator = "OP-4471"

abbrev pub c_nebias : Stop
c_nebias = record { id = "C-NEBIAS"; name = "Conselheiro Nébias"; t = 28_440 }

-- the stops after the first
abbrev pub further_stops : List Stop
further_stops =
    record { id = "ANA-COSTA"; name = "Ana Costa"; t = 227_520 }
    ∷ record { id = "F-GLICERIO"; name = "Fco. Glicério"; t = 455_040 }
    ∷ record { id = "CAMPOS-MELLO"; name = "Campos Mello"; t = 668_340 }
    ∷ record { id = "JOAO-PESSOA"; name = "João Pessoa"; t = 853_200 }
    ∷ record { id = "AMADOR-BUENO"; name = "Amador Bueno"; t = 1_052_280 }
    ∷ record { id = "VALONGO"; name = "Valongo"; t = 1_279_800 }
    ∷ []

-- `STOPS.map` from the i-th stop on; the one after the last is the first
unfoldable pub sections_from : ℕ → Stop → List Stop → List Section
sections_from i s [] =
    record {
      id = "L2-S" +++ decimal (11 + i);
      start = s.name;
      end = c_nebias.name;
      range = (s.t, c_nebias.t);
    }
    ∷ []
sections_from i s (next ∷ rest) =
    record {
      id = "L2-S" +++ decimal (11 + i);
      start = s.name;
      end = next.name;
      range = (s.t, next.t);
    }
    ∷ sections_from (suc i) next rest

unfoldable pub sections : List Section
unfolding sections_from
sections = sections_from 0 c_nebias further_stops

abbrev pub trains : List TrainSeed
trains =
    record { id = "VLT-07"; color_var = c_blue; t = 284_400; dev = pos 95_000; occ = "em pé" }
    ∷ record {
      id = "VLT-12";
      color_var = c_orange;
      t = 739_440;
      dev = negsuc 39_999;
      occ = "poucos lugares";
    }
    ∷ record {
      id = "VLT-19";
      color_var = c_aqua;
      t = 1_151_820;
      dev = pos 12_000;
      occ = "muitos lugares";
    }
    ∷ []

abbrev pub alarms : List AlarmSeed
alarms =
    record {
      id = "INC-a91f3c";
      sev = critical;
      title = "Invasão de gabarito: automóvel em Conselheiro Nébias – Ana Costa";
      detail =
          "Detecção de automóvel no gabarito dinâmico da seção L2-S11, já 0,35 m dentro do gabarito. Incidente INC-a91f3c.";
      cls = basic;
      conf = some "94%";
      model = some "railguard-yolo v3.2.1";
      ago_sec = 430;
      actions = "Acionar CFTV do trecho" ∷ "Avisar condutores da L2" ∷ [];
    }
    ∷ record {
      id = "ALM-cobertura-jp01";
      sev = major;
      title = "Cobertura de detecção perdida: edge:jetson:XC-JOÃO-PESSOA-01";
      detail =
          "O nó de borda está offline. A seção coberta por este nó deixou de ter detecção automática de invasão.";
      cls = basic;
      conf = none;
      model = none;
      ago_sec = 158;
      actions = "Abrir chamado de manutenção" ∷ "Reforçar vigilância por CFTV" ∷ [];
    }
    ∷ []

abbrev pub restrictions : List RestrictionSeed
restrictions =
    record {
      id = "TSR-08fe2b";
      section_id = "L2-S11";
      kind = "PARADA ACONSELHADA";
      reason =
          "Invasão de gabarito detectada por visão computacional (railguard-yolo v3.2.1, confiança 94%). Incidente INC-a91f3c.";
      cls = basic;
      ago_sec = 429;
    }
    ∷ []

abbrev pub tsp : List TspSeed
tsp =
    record {
      crossing = "XC-ANA-COSTA";
      train = "VLT-07";
      action = grant;
      strategy = some "phase_call";
      reason = "Atraso de 95s, ETA 17s no cruzamento.";
      ago_sec = 7;
    }
    ∷ record {
      crossing = "XC-JOÃO-PESSOA";
      train = "VLT-19";
      action = grant;
      strategy = some "green_extension";
      reason = "Fase já verde; extensão de 7s concedida.";
      ago_sec = 262;
    }
    ∷ record {
      crossing = "XC-CONSTITUIÇÃO";
      train = "*";
      action = revoke;
      strategy = none;
      reason = "Prioridade suspensa: obstrução a jusante na seção L2-S11.";
      ago_sec = 428;
    }
    ∷ record {
      crossing = "XC-F-GLICÉRIO";
      train = "VLT-12";
      action = denied;
      strategy = some "red_truncation";
      reason = "Composição adiantada em 40s — prioridade cedida ao trânsito.";
      ago_sec = 485;
    }
    ∷ record {
      crossing = "XC-CAMPOS-MELLO";
      train = "—";
      action = idle;
      strategy = none;
      reason = "Nenhum pedido nos últimos 5 min.";
      ago_sec = 620;
    }
    ∷ []

abbrev pub edge_nodes : List EdgeNode
edge_nodes =
    record { id = "XC-ANA-COSTA-01"; ok = true; fps_tenths = some 294; link_up = true }
    ∷ record { id = "XC-F-GLICERIO-01"; ok = true; fps_tenths = some 301; link_up = true }
    ∷ record { id = "XC-CAMPOS-MELLO-01"; ok = true; fps_tenths = some 287; link_up = true }
    ∷ record { id = "XC-JOAO-PESSOA-01"; ok = false; fps_tenths = none; link_up = false }
    ∷ record { id = "XC-CONSTITUICAO-01"; ok = true; fps_tenths = some 299; link_up = true }
    ∷ []

abbrev pub log : List LogSeed
log =
    record {
      ago_sec = 1500;
      kind = session;
      operator = some seed_operator;
      text = "Operador " +++ seed_operator +++ " assumiu o posto";
    }
    ∷ record {
      ago_sec = 430;
      kind = system;
      operator = none;
      text = "Invasão de gabarito em L2-S11 — INC-a91f3c (railguard-yolo, 94%)";
    }
    ∷ record {
      ago_sec = 429;
      kind = system;
      operator = none;
      text = "Restrição TSR-08fe2b (parada aconselhada) aplicada em L2-S11";
    }
    ∷ record {
      ago_sec = 428;
      kind = system;
      operator = none;
      text = "TSP suspenso em XC-CONSTITUIÇÃO: obstrução a jusante";
    }
    ∷ record {
      ago_sec = 158;
      kind = system;
      operator = none;
      text = "Nó XC-JOAO-PESSOA-01 offline — cobertura de detecção perdida";
    }
    ∷ []
