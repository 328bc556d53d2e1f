-- ===== src/Tests.antt =====
-- Concrete inputs, at which the theorems hold and the definitions compute.
mod Http
mod Config
mod Worker
mod Proxy
mod Parser
mod Process
mod Server
mod Balancing
mod Request
mod Relay
