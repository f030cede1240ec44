-- ===== src/Gateway/Pipeline/Refused.antt =====
-- What a refusal leaves as it was.
use railsentinel.Prelude.{
  ◌≡◌, refl, inl, inr, String, Option, none, some, Bool, true, false, arith, Bool-cases, ltb,
  get_elem?,
}
use railsentinel.Prelude.Int.{ℤ}
use railsentinel.Prelude.Map
use railsentinel.Prelude.Text.{split}
use railsentinel.Contracts.Types.{Message}
use railsentinel.Contracts.Topics.{TopicParts, parse_topic}
use railsentinel.Contracts.Replay.Exact.{check-eq_of_reject}
use railsentinel.Contracts.Platform.{Platform}
use railsentinel.Contracts.Validate.{validate_message}
use railsentinel.Gateway.Registry.{DeviceRecord, by_src}
use railsentinel.Gateway.Pipeline.{
  RejectStage, AdmissionPipeline, Verdict, accepted, rejected, authorization, authentication,
  freshness, first_refusal, refuse_or, admit_counted, admit_device, admit_message, admit_parsed,
  admit, next_rate, check_input, names_source, is_revoked,
}

module _ (platform : Platform) where
  open platform use {Bytes, Json, byte_length, parse_json, as_message, date_parse}

  abbrev pub is_accepted : Verdict platform → Bool
  is_accepted (accepted m t gaps rebooted) = true
  is_accepted (rejected stage t src) = false

  -- Nothing but the counters of messages may differ, and those only if a message was counted.
  abbrev pub Keeps : AdmissionPipeline → AdmissionPipeline → Type 0
  Keeps p p' = p' ≡ record p { rates = p'.rates }

  abbrev OnRefusal : AdmissionPipeline → Verdict platform × AdmissionPipeline → Type 0
  OnRefusal p r = is_accepted r.0 ≡ false → Keeps p r.1

  freshness-OnRefusal :
      (p : AdmissionPipeline) (topic : String) (m : Message Json) (now : ℤ)
      → OnRefusal p (freshness platform p topic m now)
  unfolding freshness
  freshness-OnRefusal p topic m now h =
      ground (arith, check-eq_of_reject date_parse p.replay_guard (check_input platform m) now)

  refuse_or-OnRefusal :
      (o : Option RejectStage) (p : AdmissionPipeline) (topic : String) (m : Message Json) (now : ℤ)
      → OnRefusal p (refuse_or platform o p topic m now)
  refuse_or-OnRefusal (some s) p topic m now h = refl
  refuse_or-OnRefusal none p topic m now h = freshness-OnRefusal p topic m now h

  admit_counted-OnRefusal :
      (p : AdmissionPipeline) (d : DeviceRecord) (topic : String) (m : Message Json) (now : ℤ)
      → OnRefusal p (admit_counted platform p d topic m now)
  unfolding admit_counted
  admit_counted-OnRefusal p d topic m now =
      let rate = next_rate (Map.get p.rates m.env.src) now in
      let p' : AdmissionPipeline = record p { rates = Map.set p.rates m.env.src rate } in
      elim (Bool-cases (ltb p.rate_limit rate.count)) [
        | inl over ↦ rw over (λ h. refl)
        | inr within ↦ rw within (λ h.
            refuse_or-OnRefusal
              (first_refusal platform (authorization platform d m)
                (authentication platform p.registry p.require_signature m.sig m))
              p' topic m now h)
      ]

  admit_device-OnRefusal :
      (p : AdmissionPipeline) (o : Option DeviceRecord) (topic : String) (m : Message Json)
      (now : ℤ)
      → OnRefusal p (admit_device platform p o topic m now)
  unfolding admit_device
  admit_device-OnRefusal p none topic m now = λ h. refl
  admit_device-OnRefusal p (some d) topic m now = elim (Bool-cases (is_revoked d.status)) [
    | inl gone ↦ rw gone (λ h. refl)
    | inr here ↦ rw here (admit_counted-OnRefusal p d topic m now)
  ]

  admit_message-OnRefusal :
      (p : AdmissionPipeline) (o : Option TopicParts) (topic : String) (m : Message Json) (now : ℤ)
      → OnRefusal p (admit_message platform p o topic m now)
  unfolding admit_message
  admit_message-OnRefusal p none topic m now = λ h. refl
  admit_message-OnRefusal p (some parts) topic m now =
      elim (Bool-cases (names_source platform (get_elem? (split b':' m.env.src) 2) parts)) [
        | inl same ↦ rw same (admit_device-OnRefusal p (by_src p.registry m.env.src) topic m now)
        | inr other ↦ rw other (λ h. refl)
      ]

  admit_parsed-OnRefusal :
      (p : AdmissionPipeline) (o : Option Json) (topic : String) (now : ℤ)
      → OnRefusal p (admit_parsed platform p o topic now)
  unfolding admit_parsed
  admit_parsed-OnRefusal p none topic now = λ h. refl
  admit_parsed-OnRefusal p (some j) topic now = elim (Bool-cases (validate_message platform j)) [
    | inl good ↦ rw good (admit_message-OnRefusal p (parse_topic topic) topic (as_message j) now)
    | inr bad ↦ rw bad (λ h. refl)
  ]

  -- A message that is refused, at whichever stage, changes nothing of the pipeline but the counters of
  -- messages: above all the memory of the replay guard stays as it was, so that a forged or malformed
  -- message can neither use up a number nor an id of its source.
  pub admit-Keeps :
      (p : AdmissionPipeline) (topic : String) (payload : Bytes) (now : ℤ)
      → is_accepted (admit platform p topic payload now).0 ≡ false
      → Keeps p (admit platform p topic payload now).1
  unfolding admit
  admit-Keeps p topic payload now = elim (Bool-cases (ltb p.max_bytes (byte_length payload))) [
    | inl big ↦ rw big (λ h. refl)
    | inr small ↦ rw small (admit_parsed-OnRefusal p (parse_json payload) topic now)
  ]
