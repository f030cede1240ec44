-- ===== src/Gateway/Registry.antt =====
-- services/ingest-gateway/src/registry.ts: the devices, by key and by source. A device's time of
-- enrolment is a text that nothing reads.
use railsentinel.Prelude.{String, List, [], ◌∷◌, Option}
use railsentinel.Prelude.Map
use railsentinel.Prelude.Map.{Map}
use railsentinel.Contracts.Types.{IntegrityClass}

pub data DeviceStatus : Type 0 where
  active revoked : DeviceStatus

pub record DeviceRecord : Type 0 where
  pub src : String
  pub kid : String
  pub public_key_pem : String
  pub allowed_zones : List String
  pub allowed_types : List String
  pub max_integrity_class : IntegrityClass
  pub status : DeviceStatus
  pub enrolled_at : String

pub record DeviceRegistry : Type 0 where
  pub kids : Map DeviceRecord
  pub srcs : Map DeviceRecord

abbrev pub empty : DeviceRegistry
empty = record { kids = []; srcs = [] }

unfoldable pub add : DeviceRegistry → DeviceRecord → DeviceRegistry
add r d = record { kids = Map.set r.kids d.kid d; srcs = Map.set r.srcs d.src d }

unfoldable pub by_src : DeviceRegistry → String → Option DeviceRecord
by_src r src = Map.get r.srcs src

unfoldable pub by_kid : DeviceRegistry → String → Option DeviceRecord
by_kid r kid = Map.get r.kids kid

-- the loop of `fromFile`, over the devices that the file lists
unfoldable pub add_all : DeviceRegistry → List DeviceRecord → DeviceRegistry
unfolding add
add_all r [] = r
add_all r (d ∷ ds) = add_all (add r d) ds

unfoldable pub from_devices : List DeviceRecord → DeviceRegistry
unfolding add_all
from_devices ds = add_all empty ds
