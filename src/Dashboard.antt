-- ===== src/Dashboard.antt =====
-- apps/cco-dashboard/src: the state of the operator's post in the control centre.
pub mod State
pub mod Line
pub mod Seeds
pub mod Advance
pub mod Operator
pub mod Reducer
pub mod Initial
pub mod Selectors
