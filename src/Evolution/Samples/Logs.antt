-- ===== src/Evolution/Samples/Logs.antt =====
-- Detector, gate and log on small inputs.
use pads_v.Common.{subst, true, ◌≡◌, ◌≢◌, refl, String, none, some, [], ◌∷◌, ◌++◌, arith, eq_iff}
use pads_v.Common.Int.{ℤ, pos}
use pads_v.Evolution.Types.{mode_bandit}
use pads_v.Evolution.Wal.{Entry, append, load_from_disk, open_wal}
use pads_v.Evolution.File.{written, empty_file, scan_error, fits}
use pads_v.Evolution.Wal.Chain.{IsChained, append-IsChained}
use pads_v.Evolution.Wal.Reload.{IsSynced, append-IsSynced}
use pads_v.Evolution.Samples.{digest, entries, entries-IsFaithful, empty_wal}

append-IsChained_example :
    IsChained digest ""
      (append entries digest 7 written empty_wal (pos 3) (pos 2) (pos 1) mode_bandit).0.entries
append-IsChained_example =
    append-IsChained entries digest 7 written empty_wal (pos 3) (pos 2) (pos 1) mode_bandit tt

empty_wal-IsSynced : IsSynced entries empty_wal
unfolding load_from_disk scan_error
empty_wal-IsSynced = (empty_file, refl, refl, refl, refl)

braces_nonempty : ◌≢◌ {A = String} "{}" ""
braces_nonempty = λ h. let told = (eq_iff "{}" "").1 h in cc

entries_nonempty : (e : Entry ℤ) → entries.marshal e ≢ some ""
entries_nonempty e = λ h. ground (arith, braces_nonempty)

append_succeeds :
    (append entries digest 7 written empty_wal (pos 3) (pos 2) (pos 1) mode_bandit).2 ≡ none
unfolding append
append_succeeds = refl

short_line :
    (line : String)
    → entries.marshal
        (append entries digest 7 written empty_wal (pos 3) (pos 2) (pos 1) mode_bandit).1
      ≡ some line
    → fits line ≡ true
unfolding append
short_line line text = let same : "{}" ≡ line = ground arith in subst (λ l. fits l ≡ true) same refl

append-IsSynced_example :
    (let (w', entry, _) =
        append entries digest 7 written empty_wal (pos 3) (pos 2) (pos 1) mode_bandit in
      (w'.entries ≡ [] ++ entry ∷ []) × (open_wal entries w'.file ≡ w') × IsSynced entries w')
append-IsSynced_example =
    append-IsSynced entries digest 7 written empty_wal (pos 3) (pos 2) (pos 1) mode_bandit
      entries-IsFaithful entries_nonempty empty_wal-IsSynced append_succeeds short_line
