-- ===== src/Agent.antt =====
-- src/agent.rs: the keys that are served, the key service, and the agent's socket.
pub mod Key
pub mod Service
pub mod Socket
pub mod Build
pub mod Probe
pub mod Serve
