-- ===== src/Iam.antt =====
-- Identity and access: users, roles, refresh tokens, and the use cases over them.
pub mod Model
pub mod Email
pub mod Users
pub mod RoleStore
pub mod Tokens
pub mod Blacklist
pub mod Access
pub mod Register
pub mod Login
pub mod Refresh
pub mod Logout
pub mod Account
