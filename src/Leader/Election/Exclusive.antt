-- ===== src/Leader/Election/Exclusive.antt =====
-- While a lease runs, no other process can take, renew or give up the lead.
use railsentinel.Prelude.{
  ℕ, ◌≤◌, ◌≡◌, ◌≢◌, refl, String, List, [], ◌∷◌, none, some, All, arith, eq_iff,
}
use railsentinel.Prelude.Map
use railsentinel.Prelude.Map.{Map}
use railsentinel.Leader.Election.{
  LeaseRow, Lease, returning, acquired_row, owned_row, try_acquire, renew, release,
}
use railsentinel.Leader.Election.Fencing.{
  Request, acquire_for, renew_for, give_up, Call, serve, history,
}

-- A call of another process, before the lease has run out
abbrev pub FromOther : LeaseRow → Call → Type 0
FromOther row c = (c.holder ≢ row.holder) × (c.now ≤ row.expires_at)

not_acquired :
    (row : LeaseRow) (holder : String) (ms now : ℕ)
    → now ≤ row.expires_at
    → acquired_row (some row) holder ms now ≡ none
unfolding acquired_row
not_acquired row holder ms now h = ground arith

not_owned :
    (row : LeaseRow) (holder : String) (epoch : ℕ)
    → holder ≢ row.holder
    → owned_row (some row) holder epoch ≡ none
unfolding owned_row
not_owned row holder epoch h = ground (arith, eq_iff row.holder holder)

serve_locked :
    (role holder : String) (t : Map LeaseRow) (q : Request) (now : ℕ) (row : LeaseRow)
    → Map.get t role ≡ some row
    → holder ≢ row.holder
    → now ≤ row.expires_at
    → serve role holder t q now ≡ (none, t)
unfolding try_acquire renew release
serve_locked role holder t (acquire_for ms) now row e n h =
    rw e (rw (not_acquired row holder ms now h) (unfold returning in refl))
serve_locked role holder t (renew_for epoch ms) now row e n h =
    rw e (rw (not_owned row holder epoch n) (unfold returning in refl))
serve_locked role holder t (give_up epoch) now row e n h =
    rw (e, release) (rw (not_owned row holder epoch n) (unfold returning in refl))

-- While the lease of a row has not run out, whatever calls other processes make, none of them is
-- granted a lease, and the table stays as it is.
pub others_locked_out :
    (role : String) (t : Map LeaseRow) (row : LeaseRow) (ls : List Lease) (cs : List Call)
    → Map.get t role ≡ some row
    → All (FromOther row) cs
    → history role t ls cs ≡ (ls, t)
unfolding history
others_locked_out role t row ls [] e a = refl
others_locked_out role t row ls (c ∷ cs) e a =
    rw (serve_locked role c.holder t c.request c.now row e a.0.0 a.0.1)
      (others_locked_out role t row ls cs e a.1)
