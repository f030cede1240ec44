-- ===== src/Witnesses/Gateway.antt =====
-- A device, its message and a platform to carry it, for services/ingest-gateway/src/pipeline.ts and
-- services/ats-core/src/safety-guard.ts.
use railsentinel.Prelude.{
  inr, arith, ◌≡◌, ◌≤◌, refl, String, List, [], ◌∷◌, Option, none, some, true, false, ◌-◌, str_eq,
  ap, eq_refl, keep, map, not, ◌++◌,
}
use railsentinel.Prelude.Int.{pos, ◌-ℤ◌}
use railsentinel.Prelude.Map
use railsentinel.Prelude.Text.{◌+++◌}
use railsentinel.Contracts.Types.{Envelope, Message, Signature, basic, sil2, rank, major, l2}
use railsentinel.Contracts.Platform.{Platform}
use railsentinel.Gateway.Registry.{DeviceRecord, active, from_devices, by_src, by_kid}
use railsentinel.Gateway.Pipeline.{
  AdmissionPipeline, new, check_input, accepted, admit, next_rate, authorization, authentication,
}
use railsentinel.Gateway.Pipeline.Admitted.{IsAdmitted, admit-IsAdmitted}
use railsentinel.Gateway.Pipeline.Complete.{Accepts, admit-Accepts}
use railsentinel.Gateway.Pipeline.Refused.{Keeps, admit-Keeps, is_accepted}
use railsentinel.Gateway.Pipeline.RateLimit.{Attempt, admitted_count, window_bounded}
use railsentinel.Gateway.Downlink.{Downlink, BuildParams, build}
use railsentinel.Gateway.Downlink.Signed.{build_verifies}
use railsentinel.Gateway.Downlink.Delivery.{IsBehind, build_delivers}
use railsentinel.Gateway.Conduit.{Conduit, routes, forward, on_field_message, handle_verdict}
use railsentinel.Gateway.Conduit.Accounts.{Arrival, Balances, run-Balances, forwarded-IsAdmitted}
use railsentinel.Ats.SafetyGuard.{
  SafetyGuard, raise_alarm, grant_tsp_request, override_atp, required_authority, authorize,
}
use railsentinel.Ats.SafetyGuard.Partition.{Request, is_sufficient, violation_of, run, run_audit}
use railsentinel.Contracts.Validate.{validate_message}
use railsentinel.Contracts.Topics.{parse_topic}
use railsentinel.Contracts.Crypto.{verify_message}
use railsentinel.Contracts.Replay.{ReplayGuard, check, gap_count}
use railsentinel.Authority.{admitted_authority}

abbrev Json : Type 0
Json = Envelope × Option Signature

-- A platform whose values of JSON are messages without a payload, and whose signatures are the text
-- that is signed with the key appended
abbrev platform : Platform
platform = record {
  Bytes = Option Json;
  Json = Json;
  byte_length = λ b. 100;
  parse_json = λ b. b;
  compile = λ name json. true;
  as_message = λ json. record { env = json.0; payload = json; sig = json.1 };
  signing_input = λ env json. env.id;
  ed25519_verify = λ input key val. some (str_eq val (input +++ key));
  date_parse = λ t. some (pos 1_000);
}

abbrev device : DeviceRecord
device = record {
  src = "urn:vlt:cam1";
  kid = "k1";
  public_key_pem = "-key";
  allowed_zones = "valongo" ∷ [];
  allowed_types = "vlt.edge.intrusion.v1" ∷ [];
  max_integrity_class = basic;
  status = active;
  enrolled_at = "";
}

abbrev pipeline : AdmissionPipeline
pipeline = new (from_devices (device ∷ []))

abbrev topic : String
topic = "vlt/santos/l2/valongo/edge/cam1/evt/intrusion"

abbrev envelope : Envelope
envelope = record {
  id = "m1";
  seq = 1;
  boot = 1;
  ts = "noon";
  src = "urn:vlt:cam1";
  line = none;
  zone = some "valongo";
  type = "vlt.edge.intrusion.v1";
  class = basic;
  sev = major;
  corr = none;
}

abbrev signed : Json
signed = (envelope, some (record { alg = "Ed25519"; kid = "k1"; val = "m1-key" }))

abbrev message : Message Json
message = record { env = envelope; payload = signed; sig = signed.1 }

abbrev forged : Json
forged = (envelope, some (record { alg = "Ed25519"; kid = "k1"; val = "m1" }))

is_admitted :
    (admit platform pipeline topic (some signed) (pos 1_500)).0 ≡ accepted message topic 0 false
unfolding admit new from_devices validate_message Map.get Map.set parse_topic by_src by_kid
    next_rate authorization authentication verify_message check ◌-ℤ◌ gap_count
is_admitted = refl

is_enrolled : by_src pipeline.registry "urn:vlt:cam1" ≡ some device
unfolding new from_devices by_src Map.get Map.set
is_enrolled = refl

is_refused :
    is_accepted platform (admit platform pipeline topic (some forged) (pos 1_500)).0 ≡ false
unfolding admit new from_devices validate_message Map.get Map.set parse_topic by_src by_kid
    next_rate authorization authentication verify_message check ◌-ℤ◌ gap_count
is_refused = refl

admit-IsAdmitted_example : IsAdmitted platform pipeline topic (some signed) message (pos 1_500)
admit-IsAdmitted_example =
    admit-IsAdmitted platform pipeline topic (some signed) (pos 1_500) message topic 0 false
      is_admitted

admit-Keeps_example :
    Keeps platform pipeline (admit platform pipeline topic (some forged) (pos 1_500)).1
admit-Keeps_example = admit-Keeps platform pipeline topic (some forged) (pos 1_500) is_refused

abbrev busy : AdmissionPipeline
busy = record pipeline {
  rates = ("urn:vlt:cam1", record { window_start = pos 1_000; count = 49 }) ∷ [];
}

abbrev attempts : List (Attempt platform)
attempts =
    record { topic = topic; payload = some signed; now = pos 1_500 }
    ∷ record { topic = topic; payload = some forged; now = pos 1_999 }
    ∷ []

window_bounded_example : admitted_count platform "urn:vlt:cam1" busy attempts ≤ busy.rate_limit - 49
unfolding Map.get ◌-ℤ◌
window_bounded_example =
    window_bounded platform "urn:vlt:cam1" busy (record { window_start = pos 1_000; count = 49 })
      attempts refl (refl, (refl, tt))

abbrev guard : SafetyGuard
guard = railsentinel.Ats.SafetyGuard.new

admitted_authority_example : rank (required_authority raise_alarm) ≤ rank device.max_integrity_class
unfolding authorize
admitted_authority_example =
    admitted_authority platform pipeline topic (some signed) (pos 1_500) message topic 0 false
      device guard raise_alarm "now" is_admitted is_enrolled refl

abbrev requests : List Request
requests =
    record { effect = raise_alarm; class = basic; source = "m1"; now = "now" }
    ∷ record { effect = grant_tsp_request; class = basic; source = "m1"; now = "now" }
    ∷ record { effect = override_atp; class = sil2; source = "m2"; now = "later" }
    ∷ []

run_audit_example :
    ((run guard requests).0 ≡ keep is_sufficient requests)
    × ((run guard requests).1.violations
        ≡ guard.violations ++ map violation_of (keep (λ r. not (is_sufficient r)) requests))
run_audit_example = run_audit guard requests

-- The first request is permitted, and the other two are recorded.
refused_requests :
    keep (λ r. not (is_sufficient r)) requests
    ≡ record { effect = grant_tsp_request; class = basic; source = "m1"; now = "now" }
      ∷ record { effect = override_atp; class = sil2; source = "m2"; now = "later" }
      ∷ []
refused_requests = refl

abbrev conduit : Conduit
conduit = record {
  pipeline = pipeline;
  stats = record { accepted_count = 0; rejected_count = 0; by_stage = [] };
}

abbrev arrivals : List (Arrival platform)
arrivals =
    record { topic = topic; payload = some signed; now = pos 1_500 }
    ∷ record { topic = topic; payload = some forged; now = pos 1_600 }
    ∷ record { topic = topic; payload = none; now = pos 1_700 }
    ∷ []

run-Balances_example :
    Balances platform conduit arrivals
      (railsentinel.Gateway.Conduit.Accounts.run platform conduit arrivals)
run-Balances_example = run-Balances platform conduit arrivals

is_forwarded :
    (on_field_message platform conduit topic (some signed) (pos 1_500)).0
    ≡ forward "core/evt/intrusion" message
        (record { topic = topic; received_at = pos 1_500; latency_ms = some (pos 500); gaps = 0 })
      ∷ []
unfolding on_field_message handle_verdict admit new from_devices validate_message Map.get Map.set
    parse_topic by_src by_kid next_rate authorization authentication verify_message check ◌-ℤ◌
    gap_count
is_forwarded = refl

forwarded-IsAdmitted_example :
    IsAdmitted platform pipeline topic (some signed) message (pos 1_500)
    × (Map.get routes "vlt.edge.intrusion.v1" ≡ some "core/evt/intrusion")
forwarded-IsAdmitted_example =
    forwarded-IsAdmitted platform conduit topic (some signed) (pos 1_500) "core/evt/intrusion"
      message
      (record { topic = topic; received_at = pos 1_500; latency_ms = some (pos 500); gaps = 0 })
      is_forwarded

passes_gates : IsAdmitted platform pipeline topic (some signed) message (pos 1_500)
passes_gates =
    admit-IsAdmitted platform pipeline topic (some signed) (pos 1_500) message topic 0 false
      is_admitted

admit-Accepts_example :
    Accepts platform message topic (admit platform pipeline topic (some signed) (pos 1_500))
admit-Accepts_example =
    admit-Accepts platform pipeline topic (some signed) message (pos 1_500) passes_gates

abbrev sign : String → String → String
sign key input = input +++ key

abbrev downlink : Downlink
downlink = record {
  signer = record { src = "urn:vlt:cco"; kid = "k0"; private_key_pem = "-cco" };
  seq = 4;
  boot = 900;
}

abbrev command : BuildParams platform sign
command = record {
  type = "vlt.train.regulation.v1";
  payload = signed;
  line = l2;
  zone = "FROTA";
  integrity_class = basic;
  corr = none;
}

-- a guard that has seen three commands of this session
abbrev on_board : ReplayGuard
on_board = record {
  max_age_ms = 30_000;
  max_skew_ms = 5_000;
  id_cache_size = 512;
  sources =
      (
        "urn:vlt:cco",
        record { boot = 900; last_seq = some 3; seen_ids = "c3" ∷ []; id_order = "c3" ∷ [] },
      )
      ∷ [];
}

build_delivers_example :
    let (msg, d') = build platform sign downlink command "c5" "noon" in
    let (verdict, g') =
      check (λ t. some (pos 1_000)) on_board (check_input platform msg) (pos 1_500) in
    (verdict.accept ≡ true) × IsBehind (Map.get g'.sources d'.signer.src) d'.boot d'.seq
unfolding Map.get ◌-ℤ◌
build_delivers_example =
    build_delivers platform sign on_board downlink command "c5" "noon" (pos 1_500)
      (inr (refl, omega arith)) refl (omega arith, omega arith)

build_verifies_example :
    verify_message platform (build platform sign downlink command "c5" "noon").0 "-cco" ≡ true
build_verifies_example =
    build_verifies platform sign downlink command "c5" "noon" "-cco"
      (λ text. ap some (eq_refl (text +++ "-cco")))
