-- ===== src/Syntax.antt =====
-- src/syntax.rs: the text syntax of programs and queries.
pub mod Text
pub mod Ast
pub mod Validate
mod WellFormed
mod Print
mod Layout
mod Parser
mod Total
mod Tokens
mod ReadBack
mod Containers
mod RoundTrip
mod Tests
