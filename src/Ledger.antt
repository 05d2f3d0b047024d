-- ===== src/Ledger.antt =====
-- backend/app/api/routes/transactions.py: the household's transactions.
pub mod Columns
pub mod Order
pub mod Allocation
pub mod Reads
pub mod Recent
pub mod Creation
pub mod Patching
pub mod Deletion
pub mod Cases
pub mod Sound
pub mod Tokens
pub mod Cursor
pub mod History
pub mod Listing
