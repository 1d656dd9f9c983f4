-- ===== src/Tests.antt =====
-- Runs of the modelled components on small inputs.
mod LoadBalancing
mod Ingesting
mod Working
mod Collecting
mod Replaying
mod Faulting
mod Killing
mod Piping
mod Exporting
