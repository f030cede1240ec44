-- ===== src/Ats/SafetyGuard/Partition.antt =====
-- The partition of EN 50716: the authority of an effect never passes the class of its evidence.
use mathlib.Core.List.{append-nil, append_assoc}
use railsentinel.Prelude.{
  ◌≤◌, ◌≡◌, ◌↔◌, String, List, [], ◌∷◌, Bool, true, arith, if◌then◌else◌, leb, not, keep, map, ◌++◌,
  sym, refl, ap, ◌∙◌, Bool-cases, inl, inr,
}
use railsentinel.Contracts.Types.{IntegrityClass, rank}
use railsentinel.Ats.SafetyGuard.{
  SafetyViolation, EffectKind, SafetyGuard, required_authority, authorize,
}

-- An effect is permitted exactly when the class of the evidence reaches the authority that the
-- effect requires.
pub authorize_exact :
    (g : SafetyGuard) (e : EffectKind) (c : IntegrityClass) (id now : String)
    → ((authorize g e c id now).0.permitted ≡ true) ↔ (rank (required_authority e) ≤ rank c)
unfolding authorize
authorize_exact g e c id now = ground arith

-- A request to the guard.
pub record Request : Type 0 where
  pub effect : EffectKind
  pub class : IntegrityClass
  pub source : String
  pub now : String

-- A series of requests: the guard at the end, and those that were permitted.
pub run : SafetyGuard → List Request → List Request × SafetyGuard
run g [] = ([], g)
run g (r ∷ rs) =
    let (d, g') = authorize g r.effect r.class r.source r.now in
    let (rest, g'') = run g' rs in (if d.permitted then r ∷ rest else rest, g'')

-- The evidence of a request reaches the authority of its effect.
abbrev pub is_sufficient : Request → Bool
is_sufficient r = leb (rank (required_authority r.effect)) (rank r.class)

-- The record of a request that is refused
abbrev pub violation_of : Request → SafetyViolation
violation_of r = record {
  at = r.now;
  effect = r.effect;
  evidence_class = r.class;
  required_class = required_authority r.effect;
  source_event_id = r.source;
}

-- Whatever the requests, those that are permitted are just those with evidence of the class that their
-- effect requires, in order; and for each of the others, and for nothing else, the audit trail is extended
-- by one violation, in order, with its instant, effect, classes and source.
pub run_audit :
    (g : SafetyGuard) (rs : List Request)
    → ((run g rs).0 ≡ keep is_sufficient rs)
      × ((run g rs).1.violations
          ≡ g.violations ++ map violation_of (keep (λ r. not (is_sufficient r)) rs))
unfolding run authorize
run_audit g [] = (refl, sym (append-nil g.violations))
run_audit g (r ∷ rs) = elim (Bool-cases (is_sufficient r)) [
  | inl h ↦
      let (permitted, recorded) = run_audit g rs in rw h (ap (λ ps. r ∷ ps) permitted, recorded)
  | inr h ↦
      let v = violation_of r in
      let g' = record g {
        violations = g.violations ++ v ∷ [];
        notified = if g.listening then g.notified ++ v ∷ [] else g.notified;
      } in
      let (permitted, recorded) = run_audit g' rs in
      let rest = map violation_of (keep (λ q. not (is_sufficient q)) rs) in
      rw h (permitted, recorded ∙ append_assoc g.violations (v ∷ []) rest)
]
