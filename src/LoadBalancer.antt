-- ===== src/LoadBalancer.antt =====
-- The load balancer: load_balancer/*.py.
pub mod Config
pub mod Metrics
pub mod Health
pub mod Router
pub mod Server
