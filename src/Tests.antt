-- ===== src/Tests.antt =====
-- Concrete runs of the modelled code, and each property at one of them.
mod Fixtures
mod Content
mod Access
mod Accounts
mod Config
mod Client
mod Transfer
