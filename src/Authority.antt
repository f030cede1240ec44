-- ===== src/Authority.antt =====
-- The gateway and the safety guard together: what an admitted message can bring about
-- (services/ingest-gateway/src/pipeline.ts and services/ats-core/src/safety-guard.ts).
use railsentinel.Prelude.{ℕ, ◌≤◌, ◌≡◌, String, some, Bool, true, arith}
use railsentinel.Prelude.Int.{ℤ}
use railsentinel.Contracts.Types.{Message, rank}
use railsentinel.Contracts.Platform.{Platform}
use railsentinel.Gateway.Registry.{DeviceRecord, by_src}
use railsentinel.Gateway.Pipeline.{AdmissionPipeline, accepted, admit}
use railsentinel.Gateway.Pipeline.Admitted.{admit-IsAdmitted}
use railsentinel.Ats.SafetyGuard.{EffectKind, SafetyGuard, required_authority, authorize}
use railsentinel.Ats.SafetyGuard.Partition.{authorize_exact}

module _ (platform : Platform) where
  open platform use {Bytes, Json}

  -- The class that a message claims gives it no authority beyond that of its device: whatever effect
  -- the guard permits on the evidence of an admitted message requires no more than the class that the
  -- device enrolled under the message's source is approved for.
  pub admitted_authority :
      (p : AdmissionPipeline) (topic : String) (payload : Bytes) (now : ℤ) (msg : Message Json)
      (t : String) (gaps : ℕ) (rebooted : Bool) (device : DeviceRecord) (g : SafetyGuard)
      (effect : EffectKind) (at : String)
      → (admit platform p topic payload now).0 ≡ accepted msg t gaps rebooted
      → by_src p.registry msg.env.src ≡ some device
      → (authorize g effect msg.env.class msg.env.id at).0.permitted ≡ true
      → rank (required_authority effect) ≤ rank device.max_integrity_class
  admitted_authority p topic payload now msg t gaps rebooted device g effect at a e h =
      let ok' = admit-IsAdmitted platform p topic payload now msg t gaps rebooted a in
      let same : ok'.device ≡ device = ground (arith, ok'.enrolled) in
      let capped : rank msg.env.class ≤ rank device.max_integrity_class =
        rw same at (ok'.checked.authorized.class_allowed) in
      omega (arith, capped, (authorize_exact g effect msg.env.class msg.env.id at).0 h)
