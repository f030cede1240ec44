-- ===== src/Leader/Election.antt =====
-- packages/leader-election/src/election.ts: the lease of a role, in one table of the database.
-- Each operation is one SQL statement, so it is one atomic step on the table; `now` is the clock of the
-- database, in milliseconds. A query that fails raises in the caller: see LeaseHolder.
pub mod Fencing
pub mod Exclusive
use railsentinel.Prelude.{
  ℕ, ◌+◌, String, Option, none, some, ltb, ◌==◌, ◌&&◌, str_eq, if◌then◌else◌,
}
use railsentinel.Prelude.Map
use railsentinel.Prelude.Map.{Map}

-- a row of the table `leader_lease`, whose key is the role
pub record LeaseRow : Type 0 where
  pub holder : String
  pub epoch : ℕ
  pub acquired_at : ℕ
  pub expires_at : ℕ

pub record Lease : Type 0 where
  pub role : String
  pub holder : String
  pub epoch : ℕ
  pub acquired_at : ℕ
  pub expires_at : ℕ

unfoldable pub row_to_lease : LeaseRow → String → Lease
row_to_lease row role = record {
  role = role;
  holder = row.holder;
  epoch = row.epoch;
  acquired_at = row.acquired_at;
  expires_at = row.expires_at;
}

-- `RETURNING`: a row that was written is returned.
unfoldable pub returning : Map LeaseRow → String → Option LeaseRow → Option Lease × Map LeaseRow
unfolding row_to_lease
returning table role none = (none, table)
returning table role (some row) = (some (row_to_lease row role), Map.set table role row)

-- `INSERT … ON CONFLICT (role) DO UPDATE … WHERE leader_lease.expires_at < now()`
unfoldable pub acquired_row : Option LeaseRow → String → ℕ → ℕ → Option LeaseRow
acquired_row none holder lease_duration_ms now =
    some (record {
      holder = holder;
      epoch = 1;
      acquired_at = now;
      expires_at = now + lease_duration_ms;
    })
acquired_row (some row) holder lease_duration_ms now =
    if ltb row.expires_at now
    then some (record {
      holder = holder;
      epoch = row.epoch + 1;
      acquired_at = now;
      expires_at = now + lease_duration_ms;
    })
    else none

-- `WHERE role = $1 AND holder = $2 AND epoch = $3`
unfoldable pub owned_row : Option LeaseRow → String → ℕ → Option LeaseRow
owned_row none holder epoch = none
owned_row (some row) holder epoch =
    if str_eq row.holder holder && row.epoch == epoch then some row else none

abbrev pub expiring : Option LeaseRow → ℕ → Option LeaseRow
expiring none at = none
expiring (some row) at = some (record row { expires_at = at })

module _ (role holder_id : String) where
  unfoldable pub try_acquire : Map LeaseRow → ℕ → ℕ → Option Lease × Map LeaseRow
  unfolding returning acquired_row
  try_acquire table lease_duration_ms now =
      returning table role (acquired_row (Map.get table role) holder_id lease_duration_ms now)

  unfoldable pub renew : Map LeaseRow → ℕ → ℕ → ℕ → Option Lease × Map LeaseRow
  unfolding returning owned_row
  renew table epoch lease_duration_ms now =
      returning table role
        (expiring (owned_row (Map.get table role) holder_id epoch) (now + lease_duration_ms))

  unfoldable pub release : Map LeaseRow → ℕ → ℕ → Map LeaseRow
  unfolding returning owned_row
  release table epoch now =
      (returning table role (expiring (owned_row (Map.get table role) holder_id epoch) now)).1

unfoldable pub current : Map LeaseRow → String → Option Lease
unfolding row_to_lease
current table role = elim (Map.get table role) [
  | none ↦ none
  | some row ↦ some (row_to_lease row role)
]
