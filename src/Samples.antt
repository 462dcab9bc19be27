-- ===== src/Samples.antt =====
-- Runs on inputs that can be followed in the source, and each theorem at an input where its hypotheses
-- hold.
mod Http
mod Proxy
mod Limits
mod Small
mod Rollout
mod Events
mod Files
mod Shadow
