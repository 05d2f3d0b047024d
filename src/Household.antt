-- ===== src/Household.antt =====
-- backend/app/api/routes/household.py: members, their roles, and invitations.
pub mod Members
pub mod Invitations
pub mod Requests
pub mod Examples
