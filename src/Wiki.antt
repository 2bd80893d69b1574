-- ===== src/Wiki.antt =====
-- agents/wiki: the domain models, the in-memory wiki and the tools that serve it.
pub mod Error
pub mod Models
pub mod Store
pub mod Matcher
pub mod Reading
pub mod Tools
pub mod Service
pub mod Operations
pub mod Freshness
pub mod StopWords
pub mod Terms
mod Tests
