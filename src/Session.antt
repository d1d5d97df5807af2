-- ===== src/Session.antt =====
-- The session of the agent that a channel resumes: session_store.py.
pub mod Binding
pub mod Document
pub mod Store
pub mod Tests
