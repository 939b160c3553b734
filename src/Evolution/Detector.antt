-- ===== src/Evolution/Detector.antt =====
-- internal/policy/evolution/anti_collapse.go: a sliding window of scores and what it shows.
pub mod Window
use pads_v.Common.{
  ℕ, zero, suc, ◌+◌, ◌-◌, ◌≤◌, ◌≡◌, refl, Bool, true, false, ◌&&◌, ◌||◌, List, [], ◌∷◌, ◌++◌, arith,
  ltb, eqb, if◌then◌else◌, length, length-append, drop,
}
use pads_v.Common.Float.{Float}
use pads_v.Common.Int.{ℤ, pos}

pub record Detector (F : Type 0) : Type 0 where
  pub window : List F
  pub size : ℕ
  pub variance_threshold : F

unfoldable pub new_detector : {F : Type 0} → ℕ → F → Detector F
new_detector size threshold = record { window = []; size = size; variance_threshold = threshold }

-- append, and drop the oldest (`w[1:]`) once the list is longer than `size`
unfoldable pub slide : {F : Type 0} → ℕ → List F → F → List F
slide size window score =
    let grown = window ++ score ∷ [] in if ltb size (length grown) then drop 1 grown else grown

unfoldable pub add : {F : Type 0} → Detector F → F → Detector F
unfolding slide
add d score = record d { window = slide d.size d.window score }

module _ (fl : Float) where
  abbrev pub sum_from : fl.F → List fl.F → fl.F
  sum_from acc [] = acc
  sum_from acc (v ∷ vs) = sum_from (fl.add acc v) vs

  abbrev pub count_float : List fl.F → fl.F
  count_float window = fl.of_int (pos (length window))

  -- The mean, 0 for an empty window.
  unfoldable pub mean_of : List fl.F → fl.F
  mean_of [] = fl.zero
  mean_of (v ∷ vs) = fl.div (sum_from fl.zero (v ∷ vs)) (count_float (v ∷ vs))

  abbrev pub sum_squares_from : fl.F → fl.F → List fl.F → fl.F
  sum_squares_from mean acc [] = acc
  sum_squares_from mean acc (v ∷ vs) =
      sum_squares_from mean (fl.add acc (fl.mul (fl.sub v mean) (fl.sub v mean))) vs

  unfoldable pub variance : Detector fl.F → fl.F
  unfolding mean_of
  variance d =
      if ltb (length d.window) 2
      then fl.zero
      else fl.div (sum_squares_from (mean_of d.window) fl.zero d.window) (count_float d.window)

  unfoldable pub is_stable : Detector fl.F → Bool
  unfolding variance
  is_stable d = fl.lt (variance d) d.variance_threshold

  abbrev turns : fl.F → fl.F → fl.F → fl.F → Bool
  turns mean a b c =
      let diff1 = fl.sub c b in
      let diff2 = fl.sub b a in
      fl.lt (fl.mul diff1 diff2) fl.zero
      && fl.lt (fl.mul (fl.ratio (pos 1) (pos 100)) mean) (fl.abs diff1)

  -- A change of sign in the slope somewhere among three neighbours, of 1% of the mean at least.
  turns_in : fl.F → List fl.F → Bool
  turns_in mean (a ∷ b ∷ c ∷ rest) = turns mean a b c || turns_in mean (b ∷ c ∷ rest)
  turns_in mean _ = false

  unfoldable pub is_oscillating : Detector fl.F → Bool
  unfolding turns_in mean_of
  is_oscillating d = turns_in (mean_of d.window) d.window
