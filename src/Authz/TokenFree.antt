-- ===== src/Authz/TokenFree.antt =====
-- authz/token_free.py: which jq conditions a background execution can be authorized against.
pub mod Syntax
pub mod Characters
pub mod Lexer
pub mod Parser
pub mod Grammar
pub mod Taint
pub mod Jq
pub mod Flow
pub mod Inversion
pub mod Reads
pub mod Noninterference
pub mod Gate
