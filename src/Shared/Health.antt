-- ===== src/Shared/Health.antt =====
-- client/shared/metrics.go and client/cronjob/cronjob.go: the status of a cron job, and the health of the
-- program, which is read from the gauges.
use flare_system_client.Utils.Hex.{bytes_eq}
use flare_system_client.Utils.Int64.{eq_ℤ}
use flare_system_client.Prelude.{
  ℕ, zero, suc, ◌-◌, Bool, true, false, ◌&&◌, List, [], ◌∷◌, Bytes, codes, length, drop, leb,
  if◌then◌else◌, Option, none, some, Go, ok, err, panicked, ℤ, pos, negsuc,
}

pub data HealthStatus : Type 0 where
  status_initializing status_ok status_error status_syncing : HealthStatus

abbrev pub status_value : HealthStatus → ℤ
status_value status_initializing = pos 0
status_value status_ok = pos 1
status_value status_error = negsuc 0
status_value status_syncing = negsuc 1

-- `dto.MetricFamily`: its name, and of each metric the value of its gauge, if it has one.
pub record MetricFamily : Type 0 where
  pub name : Bytes
  pub metrics : List (Option ℤ)

-- `strings.HasSuffix`
abbrev pub has_suffix : Bytes → Bytes → Bool
has_suffix s suffix =
    leb (length suffix) (length s) && bytes_eq (drop (length s - length suffix) s) suffix

unfoldable pub gauges_ok : List (Option ℤ) → Bool
gauges_ok [] = true
gauges_ok (none ∷ ms) = gauges_ok ms
gauges_ok (some v ∷ ms) = if eq_ℤ v (status_value status_ok) then gauges_ok ms else false

unfoldable pub families_ok : List MetricFamily → Bool
families_ok [] = true
families_ok (mf ∷ mfs) =
    if has_suffix mf.name (codes "health_status")
    then if gauges_ok mf.metrics then families_ok mfs else false
    else families_ok mfs

-- `getHealthStatus`, of what `Gather` returns.
unfoldable pub get_health_status : Go Bytes (List MetricFamily) → Go Bytes Bool
get_health_status (ok mfs) = ok (families_ok mfs)
get_health_status (err e) = err e
get_health_status panicked = panicked

-- A job's calls; `update_status` is `UpdateCronjobStatus`.
pub record Cronjob (W : Type 0) : Type 0 where
  pub is_enabled : Bool
  pub on_start : W → Option Bytes × W
  pub call : W → Option Bytes × W
  pub update_status : HealthStatus → W → W

module _ {W : Type 0} (c : Cronjob W) where
  abbrev pub status_of : Option Bytes → HealthStatus
  status_of none = status_ok
  status_of (some e) = status_error

  -- So many rounds of the endless loop.
  unfoldable pub cronjob_rounds : ℕ → W → W
  cronjob_rounds zero w = w
  cronjob_rounds (suc n) w =
      cronjob_rounds n (c.update_status (status_of (c.call w).0) (c.call w).1)

  abbrev pub when_started : ℕ → Option Bytes × W → W
  when_started n (none, w) = cronjob_rounds n w
  when_started n (some e, w) = w

  -- `RunCronjob`, for `n` ticks of its ticker.
  unfoldable pub run_cronjob : ℕ → W → W
  run_cronjob n w =
      if c.is_enabled then when_started n (c.on_start w) else c.update_status status_ok w
