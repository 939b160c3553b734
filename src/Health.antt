-- ===== src/Health.antt =====
-- internal/health/check.go: the status of the components. What the disk and the database answer is an
-- argument.
use Prim.Native.String.{◌++◌ as str_append}
use pads_v.Common.{ℕ, String, Bool, true, false, Option, none, some, if◌then◌else◌, ◌==◌}
use pads_v.Common.Table.{Table}
use pads_v.Evolution.AgentLoop.{UcbArmStats}

pub record PoolStats (F : Type 0) : Type 0 where
  pub size : ℕ
  pub best_arm : String
  pub arm_stats : Table (UcbArmStats F)

pub record AutonomousStatus : Type 0 where
  pub enabled : Bool
  pub cycles : ℕ

pub record HealthChecker (F : Type 0) : Type 0 where
  pub db : Bool
  pub wal : Bool
  pub semantic_memory : Bool
  pub worker : Bool
  pub pool : Option (PoolStats F)
  pub autonomous : Option AutonomousStatus

pub record Paths : Type 0 where
  pub wal_path : String
  pub sem_db : String

-- os.Stat, and database/sql on SQLite: whether a path is there, and whether it opens and pings.
pub record Probes : Type 0 where
  pub exists : String → Bool
  pub pings : String → Bool

abbrev check_worker : Option Bool → Bool
check_worker none = true
check_worker (some running) = running

unfoldable pub check_sqlite : Probes → String → Bool
check_sqlite probes path = if path == "" then false else probes.pings path

-- Checker.Check; `worker` is what the function of the worker answers, if there is one.
unfoldable pub check_health : {F : Type 0} → Probes → Paths → Option Bool → HealthChecker F
unfolding check_sqlite
check_health probes paths worker = record {
  db = probes.exists paths.wal_path;
  wal = probes.exists paths.wal_path;
  semantic_memory = check_sqlite probes paths.sem_db;
  worker = check_worker worker;
  pool = none;
  autonomous = none;
}

-- Check, without paths
abbrev pub assume_healthy : {F : Type 0} → HealthChecker F
assume_healthy = record {
  db = true;
  wal = true;
  semantic_memory = true;
  worker = true;
  pool = none;
  autonomous = none;
}

abbrev pub check_with_pool : {F : Type 0} → HealthChecker F → Option (PoolStats F) → HealthChecker F
check_with_pool h stats = record h { pool = stats }

abbrev pub check_with_autonomous :
    {F : Type 0} → HealthChecker F → Option AutonomousStatus → HealthChecker F
check_with_autonomous h status = record h { autonomous = status }

abbrev bool_str : Bool → String
bool_str b = if b then "true" else "false"

-- String
unfoldable pub health_text : {F : Type 0} → HealthChecker F → String
health_text h = str_append "HealthChecker{DB: " (
    str_append (bool_str h.db) (
      str_append ", WAL: " (
        str_append (bool_str h.wal) (
          str_append ", SemanticMemory: " (
            str_append (bool_str h.semantic_memory)
              (str_append ", Worker: " (str_append (bool_str h.worker) "}")))))))
