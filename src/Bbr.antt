-- ===== src/Bbr.antt =====
-- quic-test/mybbr: the congestion controller, its pacer, and the applications on top of it.
pub mod Env
pub mod Cluster
pub mod State
pub mod Modes
pub mod Sampler
pub mod Sender
pub mod Safety
pub mod ProbeRtt
pub mod Pacing
pub mod App
pub mod Machine
pub mod Session
