-- ===== src/Ci/Jobs.antt =====
-- Jobs and steps (internal/ci/types.go, internal/ci/matrix.go).
use pads_v.Common.{String, List, none, some, []}
use pads_v.Common.Table.{Table, lookup}

pub record Step : Type 0 where
  pub id : String
  pub name : String
  pub run : String
  pub working_dir : String
  pub needs : List String

pub record Matrix : Type 0 where
  pub vars : Table (List String)

pub record Job : Type 0 where
  pub id : String
  pub steps : List Step
  pub matrix : Matrix
  pub needs : List String

abbrev pub Jobs : Type 0
Jobs = Table Job

-- Go's zero value, which a missing key reads.
abbrev pub no_job : Job
no_job = record { id = ""; steps = []; matrix = record { vars = [] }; needs = [] }

-- jobs[id]
unfoldable pub job_at : Jobs → String → Job
job_at jobs id = elim (lookup id jobs) [ none ↦ no_job | some job ↦ job ]

unfoldable pub needs_of : Jobs → String → List String
unfolding job_at
needs_of jobs id = (job_at jobs id).needs
