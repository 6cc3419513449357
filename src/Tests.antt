-- ===== src/Tests.antt =====
-- Concrete inputs for the development's theorems.
mod Reloads
mod Managers
mod Pressures
mod Roles
mod Leases
mod Ledgers
mod Campaigns
mod Closings
mod Turns
