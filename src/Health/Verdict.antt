-- ===== src/Health/Verdict.antt =====
-- What the verdict of the health routes depends on.
use distributed_document_sea.Prelude.{ℕ, ◌≡◌, if◌then◌else◌, leb, Bool, false, not, ◌&&◌, arith}
use distributed_document_sea.Errors.{ok, err}
use distributed_document_sea.Health.{
  ProbeRun, run, check, verdict, build_health, healthy, degraded, unhealthy, health, readiness,
}

-- Whether a probe answers that the dependency is there, within the timeout.
abbrev pub answers : ℕ → ProbeRun → Bool
answers timeout r = elim r.outcome [ ok b ↦ b && not (leb timeout r.duration) | err e ↦ false ]

-- Both health routes answer 200 exactly if Postgres and OpenSearch answer in time, whatever Redis
-- and RabbitMQ do, and 503 otherwise; the status is healthy exactly if all four answer.
pub ready_iff_critical_answer :
    (timeout : ℕ) (database engine cache publisher : ProbeRun)
    → ((readiness timeout (build_health database engine cache publisher)).0
        ≡ (if answers timeout database && answers timeout engine then 200 else 503))
      × ((health timeout (build_health database engine cache publisher)).0
          ≡ (if answers timeout database && answers timeout engine then 200 else 503))
      × ((health timeout (build_health database engine cache publisher)).1.status ≡ (
          if answers timeout database && answers timeout engine
          then (if answers timeout cache && answers timeout publisher then healthy else degraded)
          else unhealthy))
unfolding readiness health check run verdict build_health
ready_iff_critical_answer timeout database engine cache publisher = ground arith
