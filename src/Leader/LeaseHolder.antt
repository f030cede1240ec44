-- ===== src/Leader/LeaseHolder.antt =====
-- packages/leader-election/src/lease-holder.ts: the cycle of acquiring, renewing and losing the lead.
-- A step of the cycle waits for the database, so it is two functions: the query that it sends, and what
-- it does with the answer, where `failed` is a query that raised. `stop` is two functions likewise.
-- `notified` is what the listeners were called with, and `timer` the delay of the timer that is set.
pub mod Lead
use railsentinel.Prelude.{
  ℕ, ◌+◌, ◌/◌, String, List, [], ◌∷◌, ◌++◌, Option, none, some, Bool, true, false, ◌==◌, not, ◌||◌,
  if◌then◌else◌,
}
use railsentinel.Prelude.Map.{Map, is_some}
use railsentinel.Leader.Election.{LeaseRow, Lease, try_acquire, renew, release}

pub record Notice : Type 0 where
  pub is_leader : Bool
  pub epoch : Option ℕ

pub record LeaseHolder : Type 0 where
  pub role : String
  pub holder_id : String
  pub lease_duration_ms : ℕ
  pub renew_interval_ms : ℕ
  pub retry_interval_ms : ℕ
  pub epoch : Option ℕ
  pub timer : Option ℕ
  pub stopped : Bool
  pub ever_notified : Bool
  pub notified : List Notice

-- the defaults of the options; a third of the lease is not rounded in the source
unfoldable pub new : String → String → Option ℕ → Option ℕ → Option ℕ → LeaseHolder
new role holder_id lease_ms renew_ms retry_ms =
    let or_else : Option ℕ → ℕ → ℕ = λ o d. elim o [ none ↦ d | some ms ↦ ms ] in
    let lease = or_else lease_ms 15_000 in
    record {
      role = role;
      holder_id = holder_id;
      lease_duration_ms = lease;
      renew_interval_ms = or_else renew_ms (lease / 3);
      retry_interval_ms = or_else retry_ms 2_000;
      epoch = none;
      timer = none;
      stopped = false;
      ever_notified = false;
      notified = [];
    }

unfoldable pub is_leader : LeaseHolder → Bool
is_leader h = is_some h.epoch

abbrev pub same_epoch : Option ℕ → Option ℕ → Bool
same_epoch none none = true
same_epoch none (some b) = false
same_epoch (some a) none = false
same_epoch (some a) (some b) = a == b

-- `#setEpoch`
unfoldable pub set_epoch : LeaseHolder → Option ℕ → LeaseHolder
set_epoch h next =
    let changed = not (same_epoch next h.epoch) || not h.ever_notified in
    record h {
      epoch = next;
      ever_notified = true;
      notified =
          if changed
          then h.notified ++ record { is_leader = is_some next; epoch = next } ∷ []
          else h.notified;
    }

pub data Answer : Type 0 where
  answered : Option Lease → Answer
  failed : Answer

-- the first half of `#tick`: `none` when the holder is stopped and sends nothing
unfoldable pub send_query : LeaseHolder → Map LeaseRow → ℕ → Option (Answer × Map LeaseRow)
send_query h table now = if h.stopped then none else elim h.epoch [
  | none ↦
      let (l, t) = try_acquire h.role h.holder_id table h.lease_duration_ms now in
      some (answered l, t)
  | some epoch ↦
      let (l, t) = renew h.role h.holder_id table epoch h.lease_duration_ms now in
      some (answered l, t)
]

abbrev pub answered_epoch : Answer → Option ℕ
answered_epoch (answered (some l)) = some l.epoch
answered_epoch (answered none) = none
answered_epoch failed = none

-- the second half of `#tick`: a lost or failed renewal ends the lead; the next step is timed
unfoldable pub receive_answer : LeaseHolder → Answer → LeaseHolder
unfolding set_epoch is_leader
receive_answer h a =
    let h' = set_epoch h (answered_epoch a) in
    if h'.stopped then h' else record h' {
      timer = some (if is_leader h' then h'.renew_interval_ms else h'.retry_interval_ms);
    }

unfoldable pub start : LeaseHolder → LeaseHolder
start h = record h { stopped = false }

-- the first half of `stop`, up to the answer of the database
unfoldable pub begin_stop : LeaseHolder → Map LeaseRow → ℕ → LeaseHolder × Map LeaseRow
begin_stop h table now = (
  record h { stopped = true; timer = none },
  elim h.epoch [ none ↦ table | some epoch ↦ release h.role h.holder_id table epoch now ],
)

-- the second half of `stop`, reached only by a holder that had an epoch
unfoldable pub end_stop : LeaseHolder → LeaseHolder
unfolding set_epoch
end_stop h = set_epoch h none
