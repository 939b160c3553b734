-- ===== src/Adaptive/Converged.antt =====
-- What an attempt that converged agrees with.
use mathlib.Core.List.{append-nil, append_assoc}
use pads_v.Common.{
  Result-cases, ℕ, zero, suc, ◌+◌, ◌≤◌, ◌<◌, ◌≡◌, refl, sym, ap, ◌∙◌, String, Option, none, List,
  [], ◌∷◌, ◌++◌, arith, Option-cases, inl, inr, ok, map,
}
use pads_v.Common.Int.{ℤ}
use pads_v.Ci.Jobs.{Jobs}
use pads_v.Ci.Plan.{build_dag}
use pads_v.Ci.Verify.{Formats, Machine, append_all, read_wal_file, run_with_snapshot, parallelism}
use pads_v.Ci.Causal.{instrument_events}
use pads_v.Ci.Causal.Divergence.First.{compared, locate_divergence-none}
use pads_v.Dag.Nodes.{CanonicalEvent}
use pads_v.Dag.Run.{run}
use pads_v.Adaptive.{adapt_v2, divergence, retries, run_loop_v2, run_attempt}

-- A log that has grown at its end.
abbrev pub Extends : List String → List String → Type 0
Extends log log' = (more : List String) × (log' ≡ log ++ more)

Extends-trans : (a b c : List String) → Extends a b → Extends b c → Extends a c
Extends-trans a b c (more, e) (rest, f) =
    (more ++ rest, f ∙ (ap (λ l. l ++ rest) e ∙ append_assoc a more rest))

append_all-Extends :
    (formats : Formats) (lines : List String) (events : List CanonicalEvent)
    → Extends lines (append_all formats lines events)
unfolding append_all
append_all-Extends formats lines [] = ([], sym (append-nil lines))
append_all-Extends formats lines (e ∷ events) = elim (Option-cases (formats.write_event e)) [
  | inl refused ↦ rw (refused, append_all) (append_all-Extends formats lines events)
  | inr (line, text) ↦
      rw (text, append_all)
        (Extends-trans lines (lines ++ line ∷ []) _ (line ∷ [], refl)
          (append_all-Extends formats (lines ++ line ∷ []) events))
]

module _ (show : ℕ → String) (formats : Formats) (machines : ℕ → Machine) (max_parallel : ℕ)
    (oracle : List CanonicalEvent) (jobs : Jobs) where
  run_attempt-Extends :
      (attempt : ℕ) (before log : List String)
      → run_attempt formats machines max_parallel jobs attempt before ≡ ok log
      → Extends before log
  unfolding run_with_snapshot
  run_attempt-Extends attempt before log h =
      let machine = machines attempt in
      elim (Result-cases (
        run machine.shell (build_dag machine.sha machine.hit jobs).0
          (parallelism formats max_parallel))) [
            | inr (e, refused) ↦ absurd (ground (arith, refused))
            | inl (events, ran) ↦
                let same : append_all formats before events ≡ log = ground (arith, ran) in
                rw (← same) (append_all-Extends formats before events)
          ]

  -- The attempt that has converged is one of those that were left. It ran behind all that the log held
  -- at their start and that the attempts since have written, and the whole log that it left reads as
  -- events that part nowhere from the oracle's.
  abbrev Agrees : ℕ → ℕ → ℕ → List String → List String → Type 0
  Agrees left start attempt first log =
      (start ≤ attempt)
      × (attempt < start + left)
      × ((before : List String) × Extends first before
          × (run_attempt formats machines max_parallel jobs attempt before ≡ ok log))
      × ((current : List CanonicalEvent) × (read_wal_file formats log ≡ ok current)
          × (divergence show formats machines max_parallel oracle jobs current ≡ none))

  later :
      (left start attempt : ℕ) (first next log : List String)
      → Extends first next
      → Agrees left (suc start) attempt next log
      → Agrees (suc left) start attempt first log
  later left start attempt first next log grown (low, high, (before, behind, ran), rest) = (
    omega (arith, low),
    omega (arith, high),
    (before, Extends-trans first next before grown behind, ran),
    rest,
  )

  adapt_v2-ok :
      (left start attempt : ℕ) (first log : List String)
      → adapt_v2 show formats machines max_parallel oracle jobs left start first ≡ ok (attempt, log)
      → Agrees left start attempt first log
  unfolding adapt_v2
  adapt_v2-ok zero start attempt first log h = absurd (cc)
  adapt_v2-ok (suc left) start attempt first log h =
      elim (Result-cases (run_attempt formats machines max_parallel jobs start first)) [
        | inr (e, refused) ↦
            later left start attempt first first log ([], sym (append-nil first))
              (adapt_v2-ok left (suc start) attempt first log (rw (refused, adapt_v2) at h))
        | inl (log', ran) ↦
            let grown = run_attempt-Extends start first log' ran in
            elim (Result-cases (read_wal_file formats log')) [
              | inr (e, bad) ↦ let lost = rw (ran, bad, adapt_v2) at h in absurd (ground arith)
              | inl (current, read) ↦
                  elim (Option-cases
                    (divergence show formats machines max_parallel oracle jobs current)) [
                      | inl agree ↦
                          let done = rw (ran, read, agree, adapt_v2) at h in
                          let now : start ≡ attempt = ground (arith, done) in
                          let same : log' ≡ log = ground (arith, done) in
                          rw (← now, ← same)
                            (
                              omega arith,
                              omega arith,
                              (first, ([], sym (append-nil first)), ran),
                              (current, read, agree),
                            )
                      | inr (node, parts) ↦ later left start attempt first log' log grown (
                          adapt_v2-ok left (suc start) attempt log' log
                            (rw (ran, read, parts, adapt_v2) at h))
                    ]
            ]
      ]

-- When the second loop converges in an attempt, its number is at least 1 and at most the bound of
-- retries, and the log that it leaves is the one it began with and what its attempts have written
-- behind that. All of this log, not only the last attempt's part, could be read and, instrumented
-- like the events of the oracle's file, is as long as these and agrees with them, event by event, in
-- type, status, payload, causal identifier and parent.
pub run_loop_v2-ok :
    (show : ℕ → String) (formats : Formats) (machines : ℕ → Machine) (max_parallel : ℕ)
    (max_retries : ℤ) (oracle_file log : List String) (jobs : Option Jobs) (attempt : ℕ)
    (log' : List String)
    → run_loop_v2 show formats machines max_parallel max_retries oracle_file log jobs
      ≡ ok (attempt, log')
    → (1 ≤ attempt)
      × (attempt ≤ retries max_retries)
      × Extends log log'
      × ((oracle current : List CanonicalEvent) × (read_wal_file formats oracle_file ≡ ok oracle)
          × (read_wal_file formats log' ≡ ok current)
          × (map compared (instrument_events show oracle)
              ≡ map compared (instrument_events show current)))
unfolding run_loop_v2
run_loop_v2-ok show formats machines max_parallel max_retries oracle_file log jobs attempt log' h =
    elim (Result-cases (read_wal_file formats oracle_file)) [
      | inr (e, bad) ↦ let lost = rw (bad, run_loop_v2) at h in absurd (ground arith)
      | inl (oracle, loaded) ↦ elim (Option-cases jobs) [
        | inl nil ↦ let lost = rw (loaded, nil, run_loop_v2) at h in absurd (ground arith)
        | inr (known, given) ↦
            let (low, high, (before, grown, ran), (current, read, agree)) =
              adapt_v2-ok show formats machines max_parallel oracle known (retries max_retries) 1
                attempt log log' (rw (loaded, given, run_loop_v2) at h) in
            (
              low,
              omega (arith, high),
              Extends-trans log before log' grown (
                  run_attempt-Extends show formats machines max_parallel oracle known attempt before
                    log' ran),
              (
                oracle,
                current,
                loaded,
                read,
                (locate_divergence-none (instrument_events show oracle)
                      (instrument_events show current)).0
                    agree,
              ),
            )
      ]
    ]
