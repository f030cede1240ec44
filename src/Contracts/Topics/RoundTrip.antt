-- ===== src/Contracts/Topics/RoundTrip.antt =====
-- A topic that is built is parsed back.
use text.Mathlib.TextLemmas.{nil-append, cons-append}
use railsentinel.Prelude.{
  ◌≡◌, refl, ap, ◌∙◌, String, [], ◌∷◌, ◌++◌, some, true, false, str_eq, arith, Option-cases, inl,
  inr,
}
use railsentinel.Prelude.Text.{◌+++◌, split, lacks, split-lacks, split-append}
use railsentinel.Contracts.Topics.{TopicParts, ◌</>◌, build_topic, parse_topic}

-- A segment of a topic: not empty, and without a slash
abbrev pub IsSegment : String → Type 0
IsSegment s = (str_eq s "" ≡ false) × (lacks b'/' s ≡ true)

pub record HasSegments (p : TopicParts) : Type 0 where
  pub site : IsSegment p.site
  pub line : IsSegment p.line
  pub zone : IsSegment p.zone
  pub src_kind : IsSegment p.src_kind
  pub src_id : IsSegment p.src_id
  pub stream : IsSegment p.stream
  pub name : (n : String) → p.name ≡ some n → IsSegment n

slash-cons : (t : String) → "/" +++ t ≡ String.◌∷◌ "/" t
slash-cons t = cons-append "/" "" t ∙ ap (String.◌∷◌ "/") (nil-append t)

-- Joining by a slash, then cutting
split-slash : (s t : String) → split b'/' (s </> t) ≡ split b'/' s ++ split b'/' t
split-slash s t = rw slash-cons (split-append b'/' s t "/" refl)

split-segment : (s t : String) → lacks b'/' s ≡ true → split b'/' (s </> t) ≡ s ∷ split b'/' t
split-segment s t h = split-slash s t ∙ ap (λ l. l ++ split b'/' t) (split-lacks b'/' s h)

split-base :
    (p : TopicParts)
    → HasSegments p
    → split b'/' ("vlt" </> p.site </> p.line </> p.zone </> p.src_kind </> p.src_id </> p.stream)
      ≡ "vlt" ∷ p.site ∷ p.line ∷ p.zone ∷ p.src_kind ∷ p.src_id ∷ p.stream ∷ []
split-base p h = simp (
  split-segment "vlt" _ refl,
  split-segment p.site _ h.site.1,
  split-segment p.line _ h.line.1,
  split-segment p.zone _ h.zone.1,
  split-segment p.src_kind _ h.src_kind.1,
  split-segment p.src_id _ h.src_id.1,
  split-lacks b'/' p.stream h.stream.1,
)

-- A topic that is built from segments without slashes, none of them empty, is parsed back to the same
-- parts, with and without a name.
pub parse-build : (p : TopicParts) → HasSegments p → parse_topic (build_topic p) ≡ some p
unfolding parse_topic build_topic
parse-build p h = elim (Option-cases p.name) [
  | inl e ↦ rw (e, build_topic) (rw (split-base p h) (ground (arith, facts)))
  | inr (n, e) ↦
      let g = h.name n e in
      rw (e, build_topic)
        (rw g.0
          (rw split-slash (rw (split-base p h, split-lacks b'/' n g.1) (ground (arith, facts, g)))))
]
  where
    facts :
        (str_eq p.site "" ≡ false)
        × (str_eq p.line "" ≡ false)
        × (str_eq p.zone "" ≡ false)
        × (str_eq p.src_kind "" ≡ false)
        × (str_eq p.src_id "" ≡ false)
        × (str_eq p.stream "" ≡ false)
    facts = (h.site.0, h.line.0, h.zone.0, h.src_kind.0, h.src_id.0, h.stream.0)
