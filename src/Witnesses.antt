-- ===== src/Witnesses.antt =====
-- Concrete configurations and inputs, at which the theorems with hypotheses are applied.
mod Sample
mod ConfigCases
mod FailoverCases
mod KeyCases
mod StorageCases
mod PathCases
mod WebhookCases
mod ReconcilerCases
mod RunnerCases
mod PoolCases
mod GeoctlCases
mod DoctorCases
mod SetupCases
mod EnvCases
