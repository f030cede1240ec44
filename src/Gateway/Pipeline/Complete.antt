-- ===== src/Gateway/Pipeline/Complete.antt =====
-- The gateway turns away nothing that passes its gates.
use railsentinel.Prelude.{
  ℕ, ◌≡◌, refl, inl, inr, String, Option, none, some, Bool, true, false, ltb, arith, eq_iff,
  Option-cases, get_elem?,
}
use railsentinel.Prelude.Int.{ℤ}
use railsentinel.Prelude.Map
use railsentinel.Prelude.Map.{Map}
use railsentinel.Prelude.Text.{split}
use railsentinel.Contracts.Types.{Message}
use railsentinel.Contracts.Topics.{TopicParts, nonempty}
use railsentinel.Contracts.Replay.{check, gap_count}
use railsentinel.Contracts.Platform.{Platform}
use railsentinel.Gateway.Registry.{DeviceRecord, DeviceRegistry, by_src, active}
use railsentinel.Gateway.Pipeline.{
  AdmissionPipeline, Verdict, accepted, authorization, authentication, signed_by, freshness,
  admit_counted, admit_device, admit_message, admit_parsed, admit, next_rate, check_input,
  names_source, is_revoked,
}
use railsentinel.Gateway.Pipeline.Gates.{IsAuthorized, IsSigned}
use railsentinel.Gateway.Pipeline.Admitted.{IsAdmitted, IsChecked}

module _ (platform : Platform) where
  open platform use {Bytes, Json, byte_length, parse_json, as_message, date_parse}

  authorization-none :
      (device : DeviceRecord) (msg : Message Json)
      → IsAuthorized platform device msg
      → authorization platform device msg ≡ none
  unfolding authorization
  authorization-none device msg a = elim (Option-cases (nonempty msg.env.zone)) [
    | inl e ↦ rw e (ground (arith, a.type_allowed, a.class_allowed))
    | inr (z, e) ↦ rw e (ground (arith, a.zone_allowed z e, a.type_allowed, a.class_allowed))
  ]

  signed_by-none :
      (registry : DeviceRegistry) (msg : Message Json)
      → IsSigned platform registry msg
      → authentication platform registry true msg.sig msg ≡ none
  unfolding authentication signed_by
  signed_by-none registry msg s =
      rw (s.present, authentication)
        (rw (s.known, signed_by)
          (ground (arith, eq_iff s.signer.src msg.env.src, s.same_source, s.verifies)))

  authentication-none :
      (registry : DeviceRegistry) (required : Bool) (msg : Message Json)
      → (required ≡ true → IsSigned platform registry msg)
      → authentication platform registry required msg.sig msg ≡ none
  unfolding authentication
  authentication-none registry false msg s = refl
  authentication-none registry true msg s = signed_by-none registry msg (s refl)

  -- The verdict is the acceptance of the message.
  abbrev pub Accepts : Message Json → String → Verdict platform × AdmissionPipeline → Type 0
  Accepts msg topic o = (gaps : ℕ) × (rebooted : Bool) × (o.0 ≡ accepted msg topic gaps rebooted)

  freshness-Accepts :
      (p : AdmissionPipeline) (topic : String) (msg : Message Json) (now : ℤ)
      → (check date_parse p.replay_guard (check_input platform msg) now).0.accept ≡ true
      → Accepts msg topic (freshness platform p topic msg now)
  unfolding freshness
  freshness-Accepts p topic msg now h = (
    gap_count p.replay_guard msg.env.src msg.env.seq msg.env.boot,
    (check date_parse p.replay_guard (check_input platform msg) now).0.rebooted,
    rw h refl,
  )

  admit_counted-Accepts :
      (p : AdmissionPipeline) (device : DeviceRecord) (topic : String) (msg : Message Json)
      (now : ℤ)
      → IsChecked platform p device msg now
      → Accepts msg topic (admit_counted platform p device topic msg now)
  unfolding admit_counted
  admit_counted-Accepts p device topic msg now c =
      let rate = next_rate (Map.get p.rates msg.env.src) now in
      let within : ltb p.rate_limit rate.count ≡ false = ground (arith, c.in_rate) in
      rw
        (
          within,
          authorization-none device msg c.authorized,
          authentication-none p.registry p.require_signature msg c.signed,
        )
        (freshness-Accepts (record p { rates = Map.set p.rates msg.env.src rate }) topic msg now
          c.fresh)

  admit_device-Accepts :
      (p : AdmissionPipeline) (device : DeviceRecord) (topic : String) (msg : Message Json)
      (now : ℤ)
      → device.status ≡ active
      → IsChecked platform p device msg now
      → Accepts msg topic (admit_device platform p (some device) topic msg now)
  unfolding admit_device
  admit_device-Accepts p device topic msg now s c =
      let serves : is_revoked device.status ≡ false = rw s refl in
      rw serves (admit_counted-Accepts p device topic msg now c)

  names_source-true :
      (o : Option String) (parts : TopicParts)
      → o ≡ some parts.src_id
      → names_source platform o parts ≡ true
  names_source-true none parts e = absurd (ground (arith, e))
  names_source-true (some s) parts e = ground (arith, eq_iff s parts.src_id, e)

  admit_message-Accepts :
      (p : AdmissionPipeline) (topic : String) (msg : Message Json) (now : ℤ) (parts : TopicParts)
      (device : DeviceRecord)
      → get_elem? (split b':' msg.env.src) 2 ≡ some parts.src_id
      → by_src p.registry msg.env.src ≡ some device
      → device.status ≡ active
      → IsChecked platform p device msg now
      → Accepts msg topic (admit_message platform p (some parts) topic msg now)
  unfolding admit_message
  admit_message-Accepts p topic msg now parts device b e s c =
      rw (names_source-true (get_elem? (split b':' msg.env.src) 2) parts b, e)
        (admit_device-Accepts p device topic msg now s c)

  admit_parsed-Accepts :
      (p : AdmissionPipeline) (topic : String) (payload : Bytes) (msg : Message Json) (now : ℤ)
      (a : IsAdmitted platform p topic payload msg now)
      → Accepts msg topic (admit_parsed platform p (some a.parsed) topic now)
  unfolding admit_parsed
  admit_parsed-Accepts p topic payload msg now a =
      rw (a.valid, a.is_message, a.topic_parses)
        (admit_message-Accepts p topic msg now a.parts a.device a.bound a.enrolled a.in_service
          a.checked)

  -- A message that fits, parses, is valid, and is bound to the topic and to an enrolled device in
  -- service, within the rate, that is authorized, signed where signatures are required, and fresh, is
  -- admitted: nothing else can make the gateway refuse it.
  pub admit-Accepts :
      (p : AdmissionPipeline) (topic : String) (payload : Bytes) (msg : Message Json) (now : ℤ)
      → IsAdmitted platform p topic payload msg now
      → Accepts msg topic (admit platform p topic payload now)
  unfolding admit
  admit-Accepts p topic payload msg now a =
      let fits : ltb p.max_bytes (byte_length payload) ≡ false = ground (arith, a.fits) in
      rw (fits, a.parses) (admit_parsed-Accepts p topic payload msg now a)
