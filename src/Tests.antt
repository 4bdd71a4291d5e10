-- ===== src/Tests.antt =====
-- Runs of the definitions on small values, and the theorems at concrete arguments.
mod Collab
mod Permissions
mod RateLimit
mod Projection
mod Sync
mod Crypto
mod Maintenance
mod Entities
mod Sharing
mod Notes
mod Bodies
mod Sessions
mod Accounts
mod Listing
