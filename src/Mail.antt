-- ===== src/Mail.antt =====
-- The mail agent, agents/mail.
pub mod Error
pub mod Models
pub mod Recipients
pub mod Categories
pub mod Mailbox
pub mod Matcher
pub mod Tools
pub mod Operations
pub mod Confirmation
mod Tests
