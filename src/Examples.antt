-- ===== src/Examples.antt =====
-- The theorems at concrete inputs: the concrete functions that stand for the crates, and one module
-- of examples for each part of the agent.
pub mod Codec
mod Agent
mod Client
mod Clock
mod Deployment
mod Enroll
mod Platform
mod Server
mod Service
mod Session
mod Storage
mod System
mod Warning
