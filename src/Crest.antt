-- ===== src/Crest.antt =====
-- src/utils/crest: the paths of requests, and the tree that routes them to resources.
pub mod Tokens
pub mod Router
pub mod Request
pub mod Response
pub mod Process
pub mod Server
mod Tests
