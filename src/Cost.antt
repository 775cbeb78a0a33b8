-- ===== src/Cost.antt =====
-- internal/cost: the estimate of a tenant's monthly cost, and the Prometheus collector. Go's float64 is
-- a parameter: its numbers and operations, with the decimal literals of the source.
pub mod Measured
pub mod Agrees
use tenantflow.Prelude.{ℕ, Text, List, [], ◌∷◌, ◌++◌, ◌*◌, String}
use tenantflow.Model.{IsolationMode, shared}
use tenantflow.World.{Result, ok, err}

pub record Floats : Type 1 where
  pub Float : Type 0
  pub of_int : ℕ → Float
  pub literal : String → Float
  pub plus : Float → Float → Float
  pub times : Float → Float → Float
  pub over : Float → Float → Float

-- Resources: what is measured of one tenant.
pub record Resources : Type 0 where
  pub storage_bytes : ℕ
  pub isolation_mode : IsolationMode
  pub workflow_executions : ℕ
  pub backup_count : ℕ

pub record TenantResources : Type 0 where
  pub tenant_id : Text
  pub resources : Resources

-- HoursPerMonth
abbrev pub hours_per_month : ℕ
hours_per_month = 730

module _ (n : Floats) where
  open n use {Float, of_int, literal, plus, times, over}

  pub record PriceModel : Type 0 where
    pub storage_per_gb_month : Float
    pub compute_per_vcpu_hour : Float
    pub memory_per_gb_hour : Float
    pub per_workflow_run : Float

  -- Spec
  pub record Spec : Type 0 where
    pub vcpus : Float
    pub memory_gb : Float

  pub record Estimate : Type 0 where
    pub storage : Float
    pub compute : Float
    pub memory : Float
    pub workflows : Float
    pub backups : Float
    pub total : Float

  -- DefaultModel
  abbrev pub default_model : PriceModel
  default_model = record {
    storage_per_gb_month = literal "0.10";
    compute_per_vcpu_hour = literal "0.02";
    memory_per_gb_hour = literal "0.002";
    per_workflow_run = literal "0.0001";
  }

  unfoldable pub spec_for_isolation : IsolationMode → Spec
  spec_for_isolation shared = record { vcpus = literal "0.25"; memory_gb = literal "0.5" }
  spec_for_isolation _ = record { vcpus = of_int 1; memory_gb = of_int 2 }

  unfoldable pub monthly_estimate : Resources → PriceModel → Estimate
  unfolding spec_for_isolation
  monthly_estimate r m =
      let storage_gb = over (of_int r.storage_bytes) (of_int (1024 * 1024 * 1024)) in
      let spec = spec_for_isolation r.isolation_mode in
      let backup_gb = times storage_gb (of_int r.backup_count) in
      let storage = times storage_gb m.storage_per_gb_month in
      let compute = times (times spec.vcpus m.compute_per_vcpu_hour) (of_int hours_per_month) in
      let memory = times (times spec.memory_gb m.memory_per_gb_hour) (of_int hours_per_month) in
      let workflows = times (of_int r.workflow_executions) m.per_workflow_run in
      let backups = times backup_gb m.storage_per_gb_month in
      record {
        storage = storage;
        compute = compute;
        memory = memory;
        workflows = workflows;
        backups = backups;
        total = plus (plus (plus (plus storage compute) memory) workflows) backups;
      }

  pub record TenantEstimate : Type 0 where
    pub tenant_id : Text
    pub resources : Resources
    pub estimate : Estimate

  -- The metrics of the collector, one series of each for a tenant.
  pub data Series : Type 0 where
    total storage compute memory workflows backups storage_bytes workflow_executions : Series

  pub record Sample : Type 0 where
    pub series : Series
    pub tenant : Text
    pub value : Float

  abbrev sample : TenantEstimate → Series → Float → Sample
  sample t series value = record { series = series; tenant = t.tenant_id; value = value }

  unfoldable pub samples_of : TenantEstimate → List Sample
  samples_of t =
      sample t Series.total t.estimate.total
      ∷ sample t Series.storage t.estimate.storage
      ∷ sample t Series.compute t.estimate.compute
      ∷ sample t Series.memory t.estimate.memory
      ∷ sample t Series.workflows t.estimate.workflows
      ∷ sample t Series.backups t.estimate.backups
      ∷ sample t Series.storage_bytes (of_int t.resources.storage_bytes)
      ∷ sample t Series.workflow_executions (of_int t.resources.workflow_executions)
      ∷ []

  abbrev all_samples : List TenantEstimate → List Sample
  all_samples [] = []
  all_samples (t ∷ ts) = samples_of t ++ all_samples ts

  -- Collect: what a scrape gets, by what the loader answers. If it fails, nothing.
  unfoldable pub collect : Result (List TenantEstimate) → List Sample
  unfolding samples_of
  collect (ok ts) = all_samples ts
  collect (err e) = []
