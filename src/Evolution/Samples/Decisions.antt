-- ===== src/Evolution/Samples/Decisions.antt =====
-- Single evolutions.
use pads_v.Common.{inl, ◌≡◌, ◌↔◌, refl, true, false, none, some, [], ◌∷◌, ◌++◌, arith}
use pads_v.Common.Int.{ℤ, pos, ◌≤ℤ◌, ◌+ℤ◌, ◌-ℤ◌, ◌*ℤ◌}
use pads_v.Evolution.Types.{mode_bandit, build_reason}
use pads_v.Evolution.Detector.{new_detector, add, is_stable, is_oscillating}
use pads_v.Evolution.Gate.{new_gate, orchestrate}
use pads_v.Evolution.Wal.{Wal, new_entry, store_append, load_all}
use pads_v.Evolution.File.{empty_file}
use pads_v.Evolution.Wal.Chain.{IsChained}
use pads_v.Evolution.Loop.{Loop, Call, returned, crashed, evolve, is_unstable}
use pads_v.Evolution.Loop.Decision.{judged, evolve_accepted, evolve_crashed}
use pads_v.Evolution.Loop.Record.{evolve-wal}
use pads_v.Evolution.Loop.Sequence.{IsAudited, evolve-IsAudited}
use pads_v.Evolution.Samples.{
  whole, digest, entries, events, events-IsFaithful, calm_world, empty_wal, candidate,
}

-- A loop whose detector takes variances below the threshold as stable.
abbrev loop_with : ℤ → Loop ℤ
loop_with threshold = record {
  gate = new_gate whole;
  gate_detector = some (new_detector 10 (pos 10));
  detector = new_detector 10 threshold;
  wal = some empty_wal;
  store = some empty_file;
  mode = mode_bandit;
  sequence = 0;
  current_seed = pos 0;
}

abbrev step_of : Loop ℤ → Call ℤ
step_of l = evolve whole entries events digest calm_world l (candidate 3) (candidate 2) (pos 1)

abbrev loop_after : Call ℤ → Loop ℤ
loop_after (returned l accepted failed) = l
loop_after crashed = loop_with (pos 0)

abbrev pub calm : Loop ℤ
calm = loop_with (pos 5)

calm_step : step_of calm ≡ returned (loop_after (step_of calm)) true none
unfolding evolve is_stable add new_detector is_oscillating store_append ◌+ℤ◌ orchestrate ◌*ℤ◌
    new_gate ◌-ℤ◌ build_reason
calm_step = refl

evolve_accepted_example :
    (whole.to_int (whole.mul (whole.of_int (pos 2)) (pos 1))
      ≤ℤ whole.to_int (whole.mul (whole.of_int (pos 3)) (pos 1)))
    × (is_stable whole (loop_after (step_of calm)).detector ≡ true)
    × (is_oscillating whole (loop_after (step_of calm)).detector ≡ false)
evolve_accepted_example =
    evolve_accepted whole entries events digest calm_world calm (candidate 3) (candidate 2) (pos 1)
      calm_step

evolve-wal_example :
    (w' : Wal ℤ) × ((loop_after (step_of calm)).wal ≡ some w')
    × (w'.entries
        ≡ [] ++ new_entry entries digest 7 empty_wal (pos 3) (pos 2) (pos 1) mode_bandit ∷ [])
    × IsChained digest "" w'.entries
evolve-wal_example =
    evolve-wal whole entries events digest calm_world calm (candidate 3) (candidate 2) (pos 1)
      empty_wal refl tt calm_step

calm-IsAudited : IsAudited whole entries events digest calm_world calm
unfolding load_all
calm-IsAudited = (refl, omega arith)

evolve-IsAudited_example :
    IsAudited whole entries events digest calm_world (loop_after (step_of calm))
evolve-IsAudited_example =
    evolve-IsAudited whole entries events digest calm_world calm (candidate 3) (candidate 2) (pos 1)
      events-IsFaithful (inl refl) calm-IsAudited calm_step

-- No variance is below 0.
abbrev shaky : Loop ℤ
shaky = loop_with (pos 0)

evolve_crashed_example : (step_of (record shaky { wal = none }) ≡ crashed) ↔ (
    ((record shaky { wal = none }).wal ≡ none)
    × (is_unstable whole
          (judged whole entries events digest calm_world
            (record shaky { wal = none })
            (candidate 3)
            (candidate 2)
            (pos 1)).detector
        ≡ true))
evolve_crashed_example =
    evolve_crashed whole entries events digest calm_world (record shaky { wal = none })
      (candidate 3) (candidate 2) (pos 1)
