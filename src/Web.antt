-- ===== src/Web.antt =====
-- The accounts and sessions of the web server (src/internal/web/repository/auth.go and
-- src/internal/web/auth/manager.go).
pub mod Tables
pub mod Sessions
pub mod Accounts
pub mod Passwords
pub mod Roles
pub mod Manager
pub mod Evolution
pub mod Lookup
pub mod Moves
pub mod AccountMoves
pub mod Runs
pub mod Access
pub mod Grants
pub mod Bootstrap
pub mod Locks
pub mod Revocations
pub mod RoleLaws
pub mod PasswordLaws
mod Tests
