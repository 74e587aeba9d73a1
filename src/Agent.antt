-- ===== src/Agent.antt =====
-- internal/agent: the sessions of the users (session.go), the router of their inputs (router.go) and
-- the loop that runs what the language model asks for (agent.go).
pub mod Session
pub mod Loop
pub mod Conversation
pub mod Samples
pub mod Router
pub mod Commands
