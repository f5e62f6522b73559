-- ===== src/Control/Waypoint/Tests.antt =====
-- Instances for the waypoint manager (control/waypoint_manager.cc), over whole numbers.
use boat.Prelude.{◌≡◌, refl, true, false, some, List, [], ◌∷◌, map, replicate, arith}
use boat.Prelude.Int.{ℤ, pos}
use boat.Prelude.Floats.Whole.{ints}
use boat.Control.Waypoint.{
  wait, leave, station_keep, vision, obstacle, follow_vision, avoid, Manager, start, seconds,
}
use boat.Control.Waypoint.Run.{Event, sbus, seen, tick, iterate, run}
use boat.Control.Waypoint.Trace.{before, no_challenge}
use boat.Control.Waypoint.Keeping.{station_kept}
use boat.Control.Waypoint.Remote.{position, change, after, switched, changes, sbus_debounced}

abbrev idle : Manager ints
unfolding start
idle = (start ints 0).0

abbrev keeping : Manager ints
keeping = record idle { mode = station_keep; tacker_done = true }

abbrev low_and_high : List (List ℤ)
low_and_high =
    (pos 0 ∷ pos 0 ∷ pos 300 ∷ [])
    ∷ (pos 0 ∷ pos 0 ∷ pos 1100 ∷ [])
    ∷ (pos 0 ∷ pos 0 ∷ pos 1700 ∷ [])
    ∷ []

abbrev arrived : Manager ints
arrived = (run ints (tick 7 8 ∷ []) (iterate ints 5 6 keeping).0).0

station_kept_example :
    (arrived.station_keep_state ≡ wait)
    × ((run ints
          (tick 9 9 ∷ [])
          (iterate ints (seconds 300) (seconds 300) arrived).0).0.station_keep_state
        ≡ leave)
unfolding start before no_challenge
station_kept_example =
    station_kept ints keeping 5 6 (seconds 300) (seconds 300) (tick 7 8 ∷ []) (tick 9 9 ∷ []) refl
      refl refl refl (omega arith) refl

abbrev looking : Manager ints
looking = record idle { mode = vision; tacker_done = true; vision_confidence = pos 300 }

abbrev following : Manager ints
following = record looking { vision_state = follow_vision }

-- The buoy is lost, and found again.
abbrev lost_and_found : List (Event ints)
lost_and_found =
    seen (some (pos 0)) (some (pos 100)) ∷ tick 1 1 ∷ seen (some (pos 0)) (some (pos 400)) ∷ []

abbrev avoiding : Manager ints
avoiding = record idle { mode = obstacle; obstacle_state = avoid }

abbrev fifty : List (Event ints)
fifty = replicate 50 (tick 1 1)

sbus_debounced_example :
    (run ints (map sbus low_and_high) idle).1 ≡ map (switched ints) (changes false low_and_high)
unfolding start
sbus_debounced_example = sbus_debounced ints low_and_high idle

-- The three messages put the switch to manual, leave it there, and put it back.
two_changes : changes false low_and_high ≡ true ∷ false ∷ []
unfolding changes change after position
two_changes = refl
