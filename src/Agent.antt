-- ===== src/Agent.antt =====
-- src/agent.rs: the agents that poll the queues of a device.
pub mod TxBuffer
pub mod Registry
pub mod Frames
pub mod Polling
pub mod Thread
