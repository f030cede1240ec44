-- ===== src/Dashboard/Initial.antt =====
-- apps/cco-dashboard/src/state/reducer.ts: `initialState`. The hour of an instant at the post is the
-- runtime's.
pub mod Sound
use railsentinel.Prelude.{
  ℕ, zero, suc, ◌+◌, ◌-◌, ◌*◌, String, List, [], ◌∷◌, map, Option, none, some, ltb, leb, str_eq,
  length, find, if◌then◌else◌, ◌>>=◌,
}
use railsentinel.Prelude.Text.{◌+++◌, decimal}
use railsentinel.Dashboard.State.{
  TrainState, AlarmState, RestrictionState, TspState, LogKind, session, LogText, LogEntry,
  real_time, CcoState,
}
use railsentinel.Dashboard.Line.{Section}
use railsentinel.Dashboard.Seeds
use railsentinel.Dashboard.Seeds.{TrainSeed, AlarmSeed, RestrictionSeed, TspSeed, LogSeed}

pub record Clock : Type 0 where
  pub hours : ℕ
  pub minutes : ℕ
  pub seconds : ℕ

-- `String(n).padStart(2, '0')`
abbrev pub two_digits : ℕ → String
two_digits n = if ltb n 10 then "0" +++ decimal n else decimal n

unfoldable pub clock_string : Clock → String
clock_string d =
    two_digits d.hours +++ ":" +++ two_digits d.minutes +++ ":" +++ two_digits d.seconds

-- `[...LOG].sort((a, b) => a.agoSec - b.agoSec)`, which is stable
unfoldable pub insert_by_age : LogSeed → List LogSeed → List LogSeed
insert_by_age l [] = l ∷ []
insert_by_age l (k ∷ ks) =
    let later = insert_by_age l ks in if leb l.ago_sec k.ago_sec then l ∷ k ∷ ks else k ∷ later

unfoldable pub newest_first : List LogSeed → List LogSeed
unfolding insert_by_age
newest_first [] = []
newest_first (l ∷ ls) = insert_by_age l (newest_first ls)

abbrev pub is_session : LogSeed → railsentinel.Prelude.Bool
is_session l = elim l.kind [ session ↦ railsentinel.Prelude.true | _ ↦ railsentinel.Prelude.false ]

abbrev pub age_of : Option LogSeed → ℕ
age_of none = 0
age_of (some l) = l.ago_sec

-- What `initialState` does with the instant of `s` seconds ago
module _ (ago : ℕ → String) where
  abbrev pub train_of : TrainSeed → TrainState
  train_of t = record {
    id = t.id;
    color_var = t.color_var;
    t = t.t;
    dev = t.dev;
    occ = t.occ;
    hold = none;
  }

  abbrev pub alarm_of : AlarmSeed → AlarmState
  alarm_of a = record {
    id = a.id;
    sev = a.sev;
    title = a.title;
    detail = a.detail;
    cls = a.cls;
    conf = a.conf;
    model = a.model;
    actions = a.actions;
    raised_at = ago a.ago_sec;
    ack = none;
  }

  -- `none` where the code throws: the section is unknown
  unfoldable pub restrictions_of :
      List Section → List RestrictionSeed → Option (List RestrictionState)
  restrictions_of sections [] = some []
  restrictions_of sections (r ∷ rest) = do
    section ← find (λ (s : Section). str_eq s.id r.section_id) sections
    others ← restrictions_of sections rest
    some (
        record {
          id = r.id;
          section_id = r.section_id;
          kind = r.kind;
          reason = r.reason;
          cls = r.cls;
          range = section.range;
          created_at = ago r.ago_sec;
          cleared = none;
        }
        ∷ others)

  abbrev pub tsp_of : TspSeed → TspState
  tsp_of t = record {
    crossing = t.crossing;
    train = t.train;
    action = t.action;
    strategy = t.strategy;
    reason = t.reason;
    at = ago t.ago_sec;
  }

  -- The numbers fall to 1.
  unfoldable pub entries_of : List LogSeed → List LogEntry
  entries_of [] = []
  entries_of (l ∷ ls) =
      record {
        seq = suc (length ls);
        entry = record { at = ago l.ago_sec; kind = l.kind; operator = l.operator; text = l.text };
      }
      ∷ entries_of ls

unfoldable pub initial_state : (ℕ → Clock) → ℕ → Option CcoState
unfolding clock_string newest_first restrictions_of entries_of Seeds.sections
initial_state local now =
    let ago : ℕ → String = λ s. clock_string (local (now - s * 1000)) in
    do
      restrictions ← restrictions_of ago Seeds.sections Seeds.restrictions
      some (record {
        operator = some Seeds.seed_operator;
        operator_since = some (ago (age_of (find is_session Seeds.log)));
        trains = map (train_of ago) Seeds.trains;
        alarms = map (alarm_of ago) Seeds.alarms;
        restrictions = restrictions;
        tsp = map (tsp_of ago) Seeds.tsp;
        log = entries_of ago (newest_first Seeds.log);
        next_seq = suc (length Seeds.log);
        selected_train = none;
        sim_rate = real_time;
      })
