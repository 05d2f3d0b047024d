-- ===== src/Holdings.antt =====
-- backend/app/api/routes/holdings.py: the assets of a household.
pub mod Columns
pub mod Identity
pub mod Creation
pub mod Patching
pub mod After
pub mod Cases
pub mod Recording
pub mod Patched
mod Examples
