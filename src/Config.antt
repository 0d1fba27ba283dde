-- ===== src/Config.antt =====
-- The `config` namespace: src/config and inc/config.
pub mod Argument
pub mod Block
pub mod Location
pub mod Server
pub mod Servers
pub mod Factory
pub mod Endpoint
pub mod Directives
pub mod Mapper
pub mod Validator
pub mod Build
pub mod Lexer
pub mod Parser
mod Tests
