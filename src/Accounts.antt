-- ===== src/Accounts.antt =====
-- core/dao and core/service with user/internal/service: the ids of accounts, the lock on a user's data, and
-- the users.
pub mod Requests
pub mod Ids
pub mod Lock
pub mod Documents
pub mod Users
pub mod Registration
pub mod Tests
pub mod Runs
