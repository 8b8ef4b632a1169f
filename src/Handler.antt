-- ===== src/Handler.antt =====
-- packages/c/sshnpd/src: the request handlers, over what they call outside of the repository.
pub mod World
pub mod Traces
pub mod Envelope
pub mod Session
pub mod Success
pub mod Request
pub mod Ping
pub mod Releases
pub mod Authorised
pub mod Sample
pub mod Tests
