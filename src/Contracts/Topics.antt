-- ===== src/Contracts/Topics.antt =====
-- packages/contracts/src/topics.ts: the hierarchy of MQTT topics. The kinds of source and stream are
-- texts, since `parseTopic` takes them as they come.
pub mod RoundTrip
use railsentinel.Prelude.{
  String, List, [], ◌∷◌, Option, none, some, Bool, true, false, ◌||◌, not, str_eq, if◌then◌else◌,
}
use railsentinel.Prelude.Text.{◌+++◌, split}

pub record TopicParts : Type 0 where
  pub site : String
  pub line : String
  pub zone : String
  pub src_kind : String
  pub src_id : String
  pub stream : String
  pub name : Option String

infixr 64 ◌</>◌
abbrev pub ◌</>◌ : String → String → String
s </> t = s +++ ("/" +++ t)

-- An absent name and the empty one are one.
abbrev pub nonempty : Option String → Option String
nonempty none = none
nonempty (some n) = if str_eq n "" then none else some n

unfoldable pub build_topic : TopicParts → String
build_topic p =
    let base = "vlt" </> p.site </> p.line </> p.zone </> p.src_kind </> p.src_id </> p.stream in
    elim (nonempty p.name) [ none ↦ base | some n ↦ base </> n ]

abbrev pub first : List String → Option String
first [] = none
first (n ∷ rest) = some n

-- on the pieces of a topic: fewer than seven are refused
unfoldable pub parse_parts : List String → Option TopicParts
parse_parts (root ∷ site ∷ line ∷ zone ∷ src_kind ∷ src_id ∷ stream ∷ rest) =
    if not (str_eq root "vlt")
    then none
    else if str_eq site ""
        || str_eq line ""
        || str_eq zone ""
        || str_eq src_kind ""
        || str_eq src_id ""
        || str_eq stream ""
    then none
    else some (record {
      site = site;
      line = line;
      zone = zone;
      src_kind = src_kind;
      src_id = src_id;
      stream = stream;
      name = nonempty (first rest);
    })
parse_parts _ = none

unfoldable pub parse_topic : String → Option TopicParts
unfolding parse_parts split
parse_topic topic = parse_parts (split b'/' topic)

unfoldable pub publish_acl_for : String → String
publish_acl_for src_id = "vlt/+/+/+/+/" +++ src_id +++ "/#"

unfoldable pub subscribe_acl_for : String → String
subscribe_acl_for src_id = "vlt/+/+/+/+/" +++ src_id +++ "/cmd/#"

-- the assignment of topics of the core, `CORE`
abbrev pub normalized_intrusion : String
normalized_intrusion = "core/evt/intrusion"

abbrev pub normalized_health : String
normalized_health = "core/evt/edge_health"

abbrev pub normalized_position : String
normalized_position = "core/tlm/train_position"

abbrev pub audit_rejected : String
audit_rejected = "core/audit/rejected"
