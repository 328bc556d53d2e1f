-- ===== src/Config.antt =====
-- project/config: the settings of the server and the parser of the configuration file.
pub mod Upstream
pub mod Server
pub mod Lexer
pub mod Location
pub mod Upstreams
pub mod Main
pub mod Parser
