-- ===== src/Agent.antt =====
-- internal/agent: the actions that the agent runs for the panel, and their transport.
pub mod Tokens
pub mod PayloadType
pub mod Payload
pub mod Actions
pub mod Transport
pub mod Server
