-- ===== src/Health.antt =====
-- doc-search/app/services/health_service.py, and the probes that doc-search/app/container.py makes
-- and the routes that doc-search/app/api/routes/health.py serves from it.
pub mod Verdict
use distributed_document_sea.Prelude.{
  ℕ, ◌≡◌, Text, text, if◌then◌else◌, leb, Bool, true, false, not, ◌&&◌, List, [], ◌∷◌, map, any,
}
use distributed_document_sea.Errors.{Result, ok, err}

-- What a probe's `check` does: the time it takes, and the value that it returns or the error that it
-- raises.
pub record ProbeRun : Type 0 where
  pub duration : ℕ
  pub outcome : Result Bool

pub record Probe : Type 0 where
  pub name : Text
  pub critical : Bool
  pub check : ProbeRun

pub record DependencyHealth : Type 0 where
  pub name : Text
  pub up : Bool
  pub critical : Bool

pub data Status : Type 0 where
  healthy degraded unhealthy : Status

pub record HealthResponse : Type 0 where
  pub status : Status
  pub dependencies : List DependencyHealth

abbrev returned : Result Bool → Bool
returned (ok b) = b
returned (err e) = false

-- `_run`: a probe that takes longer than the timeout, or raises, is down.
unfoldable pub run : (timeout : ℕ) → Probe → DependencyHealth
run timeout p = record {
  name = p.name;
  up = if leb timeout p.check.duration then false else returned p.check.outcome;
  critical = p.critical;
}

abbrev pub is_down : DependencyHealth → Bool
is_down d = not d.up

abbrev pub is_critical_down : DependencyHealth → Bool
is_critical_down d = not d.up && d.critical

-- The verdict over the results.
unfoldable pub verdict : List DependencyHealth → Status
verdict results =
    if any is_critical_down results
    then unhealthy
    else if any is_down results
    then degraded
    else healthy

-- `HealthService.check`
unfoldable pub check : (timeout : ℕ) → List Probe → HealthResponse
unfolding run verdict
check timeout probes =
    let results = map (run timeout) probes in
    record { status = verdict results; dependencies = results }

-- `_build_health`: Postgres and OpenSearch are critical.
unfoldable pub build_health : (database engine cache publisher : ProbeRun) → List Probe
build_health database engine cache publisher =
    record { name = text "postgres"; critical = true; check = database }
    ∷ record { name = text "opensearch"; critical = true; check = engine }
    ∷ record { name = text "redis"; critical = false; check = cache }
    ∷ record { name = text "rabbitmq"; critical = false; check = publisher }
    ∷ []

abbrev pub is_unhealthy : Status → Bool
is_unhealthy unhealthy = true
is_unhealthy _ = false

-- `GET /health`: the status code, and the body.
unfoldable pub health : (timeout : ℕ) → List Probe → ℕ × HealthResponse
unfolding check
health timeout probes =
    let result = check timeout probes in ((if is_unhealthy result.status then 503 else 200), result)

-- `GET /health/ready`: the status code, and whether the body says `ready`.
unfoldable pub readiness : (timeout : ℕ) → List Probe → ℕ × Bool
unfolding check
readiness timeout probes =
    let ready = not (is_unhealthy (check timeout probes).status) in
    ((if ready then 200 else 503), ready)
