-- ===== src/Contracts/Types.antt =====
-- packages/contracts/src/types.ts: the classes of integrity and the messages.
-- Texts are `String`. An optional field is an `Option`.
use railsentinel.Prelude.{ℕ, String, Option}

-- CENELEC EN 50716: the class of integrity of the origin of a message
pub data IntegrityClass : Type 0 where
  basic sil2 sil4 : IntegrityClass

-- The table `RANK`, which the gateway and the safety guard both write out.
abbrev pub rank : IntegrityClass → ℕ
rank IntegrityClass.basic = 0
rank IntegrityClass.sil2 = 1
rank IntegrityClass.sil4 = 2

pub data Severity : Type 0 where
  info warning major critical : Severity

pub data Line : Type 0 where
  l1 l2 l3 : Line

-- `v` and `site` have one value each and are left out.
pub record Envelope : Type 0 where
  pub id : String
  pub seq : ℕ
  pub boot : ℕ
  pub ts : String
  pub src : String
  pub line : Option Line
  pub zone : Option String
  pub type : String
  pub class : IntegrityClass
  pub sev : Severity
  pub corr : Option String

-- `alg` is a text, so that a signature by another algorithm can be stated.
pub record Signature : Type 0 where
  pub alg : String
  pub kid : String
  pub val : String

pub record Message {ℓ} (T : Type ℓ) : Type ℓ where
  pub env : Envelope
  pub payload : T
  pub sig : Option Signature
