-- ===== src/Api/Health.antt =====
-- src/api/health.py. Whether the database and the queue answer is a parameter.
use inventory_reservation_or.Prelude.{ℕ, String, Bool, ◌&&◌, if◌then◌else◌}

pub record HealthBody : Type 0 where
  pub status : String
  pub database : String
  pub queue : String

-- The status code and the body
unfoldable pub health : Bool → Bool → ℕ × HealthBody
health db_ok queue_ok =
    let healthy = db_ok && queue_ok in
    (
      (if healthy then 200 else 503),
      record {
        status = if healthy then "healthy" else "unhealthy";
        database = if db_ok then "connected" else "unavailable";
        queue = if queue_ok then "connected" else "unavailable";
      },
    )

pub record ReadyBody : Type 0 where
  pub status : String
  pub database : Bool
  pub queue : Bool

unfoldable pub health_ready : Bool → Bool → ℕ × ReadyBody
health_ready db_ok queue_ok =
    let ready = db_ok && queue_ok in
    (
      (if ready then 200 else 503),
      record {
        status = if ready then "ready" else "not_ready";
        database = db_ok;
        queue = queue_ok;
      },
    )
