-- ===== src/Evolution/Replay/Rebuilt.antt =====
-- What a rebuilt state is.
use pads_v.Common.{◌≡◌, refl, ap, ◌∙◌, List, [], ◌∷◌, map}
use pads_v.Common.Float.{Float}
use pads_v.Common.Int.{pos}
use pads_v.Evolution.Types.{Event}
use pads_v.Evolution.Detector.Window.{last_n, add_all, window-new_detector}
use pads_v.Evolution.Replay.{Rebuild, start_rebuild, rebuild_event, rebuild_from, rebuild}

module _ (fl : Float) where
  open fl use {F}

  abbrev pub scores : List (Event F) → List F
  scores events = map (λ ev. fl.of_int ev.candidate_score) events

  detector-rebuild_from :
      (r : Rebuild F) (events : List (Event F))
      → (rebuild_from fl r events).detector ≡ add_all r.detector (scores events)
  unfolding rebuild_from rebuild_event
  detector-rebuild_from r [] = refl
  detector-rebuild_from r (ev ∷ events) = detector-rebuild_from (rebuild_event fl r ev) events

  -- The variables and the state agree on the window.
  abbrev Shown : Rebuild F → Type 0
  Shown r = r.state.detector_window ≡ r.detector.window

  rebuild_from-Shown :
      (r : Rebuild F) (events : List (Event F)) → Shown r → Shown (rebuild_from fl r events)
  unfolding rebuild_from rebuild_event
  rebuild_from-Shown r [] h = h
  rebuild_from-Shown r (ev ∷ events) h = rebuild_from-Shown (rebuild_event fl r ev) events refl

  -- The detector window that is rebuilt from events holds the candidates' scores of the last five, in
  -- order; weights, which the loop applies, have no part in it.
  pub window-rebuild :
      (events : List (Event F)) → (rebuild fl events).detector_window ≡ last_n 5 (scores events)
  unfolding rebuild start_rebuild
  window-rebuild events =
      rebuild_from-Shown (start_rebuild fl) events refl
      ∙ (ap (λ d. d.window) (detector-rebuild_from (start_rebuild fl) events)
          ∙ window-new_detector 5 (fl.of_int (pos 10)) (scores events))
