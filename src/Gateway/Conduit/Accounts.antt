-- ===== src/Gateway/Conduit/Accounts.antt =====
-- Every message of the field is accounted for.
use mathlib.Core.Path.{subst}
use railsentinel.Prelude.{
  ℕ, ◌+◌, ◌≡◌, refl, String, List, [], ◌∷◌, ◌++◌, Option, none, some, Option-cases, ap, ◌∙◌, inl,
  inr, Bool, arith, length, length-append, count_if, find, str_eq, eq_iff,
}
use railsentinel.Prelude.Int.{ℤ}
use railsentinel.Prelude.Map
use railsentinel.Prelude.Map.{Map, get-set}
use railsentinel.Contracts.Types.{Message}
use railsentinel.Contracts.Platform.{Platform}
use railsentinel.Gateway.Pipeline.{
  AdmissionPipeline, RejectStage, oversize, malformed_json, schema, unknown_topic,
  src_topic_mismatch, unknown_device, revoked_device, zone_not_allowed, type_not_allowed,
  integrity_class_not_allowed, missing_signature, bad_signature, replay, rate_limited, Verdict,
  accepted, rejected, admit,
}
use railsentinel.Gateway.Pipeline.Admitted.{IsAdmitted, admit-IsAdmitted}
use railsentinel.Gateway.Conduit.{
  Stats, Conduit, Ingest, Publication, audit, forward, count_of, count_rejected, forward_to,
  handle_verdict, on_field_message, routes, stage_name,
}

-- Of a list of stages, those that bear a name
abbrev pub count_named : String → List RejectStage → ℕ
count_named k stages = count_if (λ stage. str_eq (stage_name stage) k) stages

count_named-append :
    (k : String) (xs ys : List RejectStage)
    → count_named k (xs ++ ys) ≡ count_named k xs + count_named k ys
count_named-append k [] ys = omega arith
count_named-append k (x ∷ xs) ys = ground (arith, count_named-append k xs ys)

abbrev all_stages : List RejectStage
all_stages =
    oversize ∷ malformed_json ∷ schema ∷ unknown_topic ∷ src_topic_mismatch ∷ unknown_device
    ∷ revoked_device ∷ zone_not_allowed ∷ type_not_allowed ∷ integrity_class_not_allowed
    ∷ missing_signature ∷ bad_signature ∷ replay ∷ rate_limited ∷ []

-- Each stage has a name of its own: it is the first of all the stages with that name.
abbrev pub HasOwnName : RejectStage → Type 0
HasOwnName stage = find (λ s. str_eq (stage_name s) (stage_name stage)) all_stages ≡ some stage

all_stages-HasOwnName : (stage : RejectStage) → HasOwnName stage
all_stages-HasOwnName oversize = refl
all_stages-HasOwnName malformed_json = refl
all_stages-HasOwnName schema = refl
all_stages-HasOwnName unknown_topic = refl
all_stages-HasOwnName src_topic_mismatch = refl
all_stages-HasOwnName unknown_device = refl
all_stages-HasOwnName revoked_device = refl
all_stages-HasOwnName zone_not_allowed = refl
all_stages-HasOwnName type_not_allowed = refl
all_stages-HasOwnName integrity_class_not_allowed = refl
all_stages-HasOwnName missing_signature = refl
all_stages-HasOwnName bad_signature = refl
all_stages-HasOwnName replay = refl
all_stages-HasOwnName rate_limited = refl

module _ (platform : Platform) where
  open platform use {Bytes, Json}

  pub record Arrival : Type 0 where
    pub topic : String
    pub payload : Bytes
    pub now : ℤ

  -- A series of messages, with all that is published
  unfoldable pub run : Conduit → List Arrival → List (Publication platform) × Conduit
  run c [] = ([], c)
  run c (a ∷ as') =
      let (out, c') = on_field_message platform c a.topic a.payload a.now in
      let (rest, c'') = run c' as' in (out ++ rest, c'')

  -- the stages of what is published for the audit
  abbrev pub audited : List (Publication platform) → List RejectStage
  audited [] = []
  audited (audit stage topic src at ∷ ps) = stage ∷ audited ps
  audited (forward route msg ingest ∷ ps) = audited ps

  abbrev pub refusal_of : Verdict platform → List RejectStage
  refusal_of (rejected stage topic src) = stage ∷ []
  refusal_of (accepted msg topic gaps rebooted) = []

  -- The stages at which the pipeline refuses the messages of a series, in order
  unfoldable pub refusals : AdmissionPipeline → List Arrival → List RejectStage
  refusals p [] = []
  refusals p (a ∷ as') =
      let (verdict, p') = admit platform p a.topic a.payload a.now in
      refusal_of verdict ++ refusals p' as'

  audited-append :
      (xs ys : List (Publication platform)) → audited (xs ++ ys) ≡ audited xs ++ audited ys
  audited-append [] ys = refl
  audited-append (audit stage topic src at ∷ xs) ys = ap (λ l. stage ∷ l) (audited-append xs ys)
  audited-append (forward route msg ingest ∷ xs) ys = audited-append xs ys

  no_audit :
      (o : Option String) (msg : Message Json) (ingest : Ingest)
      → audited (forward_to platform o msg ingest) ≡ []
  no_audit none msg ingest = refl
  no_audit (some route) msg ingest = refl

  -- The counters have grown by these refusals among `n` messages, each under the name of its stage.
  abbrev pub Counts : Stats → Stats → ℕ → List RejectStage → Type 0
  Counts s s' n stages =
      (s'.accepted_count + length stages ≡ s.accepted_count + n)
      × (s'.rejected_count ≡ s.rejected_count + length stages)
      × ((k : String)
          → count_of (Map.get s'.by_stage k)
            ≡ count_of (Map.get s.by_stage k) + count_named k stages)

  -- The books balance with what the pipeline decides: its refusals are the records of audit, in order,
  -- and are counted under their stages; every other message is counted as accepted.
  abbrev pub Balances : Conduit → List Arrival → List (Publication platform) × Conduit → Type 0
  Balances c arrivals (out, c') =
      (audited out ≡ refusals c.pipeline arrivals)
      × Counts c.stats c'.stats (length arrivals) (refusals c.pipeline arrivals)
      × ((stage : RejectStage) → HasOwnName stage)

  handle_verdict-Counts :
      (v : Verdict platform) (c : Conduit) (p : AdmissionPipeline) (now : ℤ)
      → let (out, c') = handle_verdict platform v c p now in
        (audited out ≡ refusal_of v) × (c'.pipeline ≡ p) × Counts c.stats c'.stats 1 (refusal_of v)
  unfolding handle_verdict count_rejected
  handle_verdict-Counts (rejected stage topic src) c p now = (
    refl,
    refl,
    (
      omega arith,
      omega arith,
      λ k.
          let n = count_of (Map.get c.stats.by_stage (stage_name stage)) + 1 in
          ground
            (arith, get-set c.stats.by_stage (stage_name stage) n k, eq_iff (stage_name stage) k),
    ),
  )
  handle_verdict-Counts (accepted msg topic gaps rebooted) c p now = (
    no_audit (Map.get routes msg.env.type) msg _,
    refl,
    (omega arith, omega arith, λ k. omega arith),
  )

  -- Over any series of messages of the field, the records of audit are just the refusals of the pipeline,
  -- in order and with their stages; each refusal is counted, in the total and under the name of its
  -- stage, which no other stage has, and each other message is counted as accepted.
  pub run-Balances : (c : Conduit) (arrivals : List Arrival) → Balances c arrivals (run c arrivals)
  unfolding run refusals on_field_message
  run-Balances c [] = (refl, (omega arith, omega arith, λ k. omega arith), all_stages-HasOwnName)
  run-Balances c (a ∷ as') =
      let v = admit platform c.pipeline a.topic a.payload a.now in
      let o = handle_verdict platform v.0 c v.1 a.now in
      let (x, p, (n, r, m)) = handle_verdict-Counts v.0 c v.1 a.now in
      let (x', (n', r', m'), _) = run-Balances o.1 as' in
      let now = refusal_of v.0 in
      let later : List RejectStage = refusals v.1 as' in
      let same : refusals o.1.pipeline as' ≡ later = ap (λ q. refusals q as') p in
      (
        audited-append o.0 (run o.1 as').0
            ∙ ap (λ l. l ++ audited (run o.1 as').0) x
            ∙ ap (λ l. now ++ l) (x' ∙ same),
        (
          omega (arith, n, n', length-append now later, ap length same),
          omega (arith, r, r', length-append now later, ap length same),
          λ k. omega (arith, m k, m' k, count_named-append k now later, ap (count_named k) same),
        ),
        all_stages-HasOwnName,
      )

  verdict_of_forward :
      (v : Verdict platform) (c : Conduit) (p : AdmissionPipeline) (now : ℤ) (route : String)
      (msg : Message Json) (ingest : Ingest)
      → (handle_verdict platform v c p now).0 ≡ forward route msg ingest ∷ []
      → (topic : String) × (gaps : ℕ) × (rebooted : Bool) × (v ≡ accepted msg topic gaps rebooted)
        × (Map.get routes msg.env.type ≡ some route)
  unfolding handle_verdict
  verdict_of_forward (rejected stage topic src) c p now route msg ingest h = absurd (ground arith)
  verdict_of_forward (accepted msg' topic gaps rebooted) c p now route msg ingest h =
      elim (Option-cases (Map.get routes msg'.env.type)) [
        | inl e ↦ absurd (ground (arith, e))
        | inr (r, e) ↦
            let same : msg' ≡ msg = ground (arith, e) in
            let same' : r ≡ route = ground (arith, e) in
            (
              topic,
              gaps,
              rebooted,
              ap (λ m. accepted m topic gaps rebooted) same,
              subst (λ m. Map.get routes m.env.type ≡ some route) same (e ∙ ap some same'),
            )
      ]

  -- Whatever is forwarded to the core has been admitted, and goes to the topic of its type.
  pub forwarded-IsAdmitted :
      (c : Conduit) (topic : String) (payload : Bytes) (now : ℤ) (route : String)
      (msg : Message Json) (ingest : Ingest)
      → (on_field_message platform c topic payload now).0 ≡ forward route msg ingest ∷ []
      → IsAdmitted platform c.pipeline topic payload msg now
        × (Map.get routes msg.env.type ≡ some route)
  unfolding on_field_message
  forwarded-IsAdmitted c topic payload now route msg ingest h =
      let v = admit platform c.pipeline topic payload now in
      let (t, gaps, rebooted, e, r) = verdict_of_forward v.0 c v.1 now route msg ingest h in
      (admit-IsAdmitted platform c.pipeline topic payload now msg t gaps rebooted e, r)
