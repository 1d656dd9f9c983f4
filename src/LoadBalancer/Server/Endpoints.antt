-- ===== src/LoadBalancer/Server/Endpoints.antt =====
-- The two read-only endpoints of load_balancer/server.py.
use flight_pulse.Base.{
  suc, String, ◌≡◌, refl, ap, Bool, [], ◌∷◌, length, filter, ◌==◌, string_eq, nat_eq, option_eq,
  list_eq,
}
use flight_pulse.Base.Dict.{Dict}
use flight_pulse.LoadBalancer.Metrics.{Floats, Snapshot, snapshot as metrics_snapshot}
use flight_pulse.LoadBalancer.Health.{
  BackendState, healthy, unhealthy, recovering, healthy_keys, healthy_backends, state_values,
  snapshot as health_snapshot,
}
use flight_pulse.LoadBalancer.Server.{Balancer}

module _ {F : Type 0} where
  -- The value of `"backends"`.
  unfoldable pub lb_status : Balancer F → Dict String String
  unfolding health_snapshot
  lb_status b = health_snapshot b.checker

module _ (fl : Floats) where
  open fl use {Float}

  unfoldable pub lb_metrics : Balancer Float → Snapshot fl
  unfolding metrics_snapshot healthy_backends
  lb_metrics b =
      let active_count = length (healthy_backends b.checker) in
      metrics_snapshot fl active_count b.metrics

abbrev is_shown_healthy : String × String → Bool
is_shown_healthy (url, state) = state == "HEALTHY"

length-healthy_keys :
    (d : Dict String BackendState)
    → length (healthy_keys d) ≡ length (filter is_shown_healthy (state_values d))
unfolding healthy_keys state_values
length-healthy_keys [] = refl
length-healthy_keys ((url, healthy) ∷ d) = ap suc (length-healthy_keys d)
length-healthy_keys ((url, unhealthy) ∷ d) = length-healthy_keys d
length-healthy_keys ((url, recovering) ∷ d) = length-healthy_keys d

-- The number of active backends in the metrics is that of the backends that the status shows as
-- HEALTHY.
active_backend_count-lb_status :
    (fl : Floats) (b : Balancer fl.Float)
    → (lb_metrics fl b).active_backend_count ≡ length (filter is_shown_healthy (lb_status b))
unfolding lb_metrics lb_status metrics_snapshot health_snapshot healthy_backends
active_backend_count-lb_status fl b = length-healthy_keys b.checker.state
