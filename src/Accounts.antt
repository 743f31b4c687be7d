-- ===== src/Accounts.antt =====
-- internal/permission and internal/identity: the services that change roles, users and what they may
-- do, on the tables that `permission.SQLProvider` reads.
pub mod Store
pub mod Users
pub mod Grants
pub mod Checks
pub mod Roles
pub mod Ended
pub mod Phone
pub mod UserCalls
pub mod Admins
pub mod Rows
pub mod Selection
pub mod Escalation
pub mod Sound
pub mod Calls
pub mod Status
pub mod Created
pub mod Delegated
