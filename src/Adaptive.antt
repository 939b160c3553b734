-- ===== src/Adaptive.antt =====
-- internal/adaptive: runs of the scheduler of Ci.Verify, on one log, that are repeated until they
-- agree with a reference. The log is open, and can be read.
pub mod Converged
mod Samples
use pads_v.Common.{
  ℕ, zero, suc, ◌+◌, ◌-◌, String, Bool, true, false, Option, none, some, List, [], ◌∷◌,
  if◌then◌else◌, eqb, ◌==◌, Result, ok, err,
}
use pads_v.Common.Int.{ℤ, pos, negsuc}
use pads_v.Ci.Jobs.{Jobs}
use pads_v.Ci.Causal.{instrument_events}
use pads_v.Ci.Causal.Divergence.{DivergenceNode, locate_divergence}
use pads_v.Ci.Causal.Patch.{PatchAction, generate_patch, apply_patch}
use pads_v.Ci.Verify.{Formats, Machine, RunError, run_with_snapshot, read_wal_file}
use pads_v.Dag.Nodes.{CanonicalEvent}

abbrev Lines : Type 0
Lines = List String

pub data LoopError : Type 0 where
  no_reference no_jobs not_converged : LoopError
  load_oracle : RunError → LoopError
  read_current : RunError → LoopError

-- MaxRetries <= 0 stands for 3
unfoldable pub retries : ℤ → ℕ
retries (negsuc n) = 3
retries (pos n) = if eqb n 0 then 3 else n

-- A strategy may change the jobs; its error is only logged.
abbrev pub Strategy : Type 0
Strategy = Jobs → ℕ → Jobs

abbrev corrected : Option Strategy → Jobs → ℕ → Jobs
corrected none jobs attempt = jobs
corrected (some strategy) jobs attempt = strategy jobs attempt

-- Scheduler.Run in an attempt, without the injection of faults: the log, to which it appends.
abbrev pub run_attempt :
    Formats → (ℕ → Machine) → (max_parallel : ℕ) → Jobs → ℕ → Lines → Result RunError Lines
run_attempt formats machines max_parallel jobs attempt log =
    (run_with_snapshot formats (machines attempt) max_parallel log jobs).0

module _ (strategy : Option Strategy) (formats : Formats) (machines : ℕ → Machine)
    (max_parallel : ℕ) (reference : String) where
  -- The loop of Loop.Run over the attempts that are left: the attempt that converged, and the log. The
  -- digest is that of the whole file.
  unfoldable pub adapt : ℕ → ℕ → Jobs → Lines → Result LoopError (ℕ × Lines)
  unfolding run_with_snapshot
  adapt zero attempt jobs log = err not_converged
  adapt (suc left) attempt jobs log =
      let failed = adapt left (suc attempt) (corrected strategy jobs attempt) log in
      elim (run_attempt formats machines max_parallel jobs attempt log) [
        | err _ ↦ failed
        | ok log' ↦
            let again = adapt left (suc attempt) (corrected strategy jobs attempt) log' in
            if formats.hash_file log' == reference then ok (attempt, log') else again
      ]

  -- Loop.Run
  unfoldable pub run_loop : ℤ → Jobs → Lines → Result LoopError (ℕ × Lines)
  unfolding adapt retries
  run_loop max_retries jobs log =
      if reference == "" then err no_reference else adapt (retries max_retries) 1 jobs log

module _ (show : ℕ → String) (formats : Formats) (machines : ℕ → Machine) (max_parallel : ℕ)
    (oracle : List CanonicalEvent) (jobs : Jobs) where
  -- Whether the current events part from the oracle's.
  abbrev pub divergence : List CanonicalEvent → Option DivergenceNode
  divergence current =
      locate_divergence (instrument_events show oracle) (instrument_events show current)

  -- The loop of AdaptiveLoopV2.Run over the attempts that are left, with the log of the scheduler as
  -- it is before; it gives the attempt that converged, and the log. A patch changes no jobs, whether it
  -- is generated and applied or not, so each attempt runs the same.
  unfoldable pub adapt_v2 : ℕ → ℕ → Lines → Result LoopError (ℕ × Lines)
  unfolding run_with_snapshot read_wal_file
  adapt_v2 zero attempt log = err not_converged
  adapt_v2 (suc left) attempt log =
      let failed = adapt_v2 left (suc attempt) log in
      elim (run_attempt formats machines max_parallel jobs attempt log) [
        | err _ ↦ failed
        | ok log' ↦
            let again = adapt_v2 left (suc attempt) log' in
            elim (read_wal_file formats log') [
              | err e ↦ err (read_current e)
              | ok current ↦ elim (divergence current) [
                | none ↦ ok (attempt, log')
                | some node ↦ again
              ]
            ]
      ]

-- AdaptiveLoopV2.Run, on the file of the oracle and the log of the scheduler.
unfoldable pub run_loop_v2 :
    (show : ℕ → String)
    → Formats
    → (machines : ℕ → Machine) → (max_parallel : ℕ) → (max_retries : ℤ) → (oracle_file log : Lines)
    → Option Jobs
    → Result LoopError (ℕ × Lines)
unfolding adapt_v2 retries read_wal_file
run_loop_v2 show formats machines max_parallel max_retries oracle_file log jobs =
    elim (read_wal_file formats oracle_file) [
      | err e ↦ err (load_oracle e)
      | ok oracle ↦ elim jobs [
        | none ↦ err no_jobs
        | some known ↦
            adapt_v2 show formats machines max_parallel oracle known (retries max_retries) 1 log
      ]
    ]
