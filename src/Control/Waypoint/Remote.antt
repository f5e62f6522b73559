-- ===== src/Control/Waypoint/Remote.antt =====
-- The remote control in control/waypoint_manager.cc as a switch with hysteresis.
use boat.Prelude.{
  ◌≡◌, refl, Bool, true, false, Option, none, some, List, [], ◌∷◌, ◌++◌, arith, length, get_or, not,
  map, ap, ap₂, ◌∙◌, sym, leb, if◌then◌else◌,
}
use boat.Prelude.Int.{ℤ, pos, ltb_ℤ}
use boat.Prelude.Floats.{Floats}
use boat.Control.Waypoint.{auto, filtered_rc, ControlMode, cleared, Output, control_mode, Manager}
use boat.Control.Waypoint.Run.{sbus, step, run}
use boat.Control.Waypoint.Handlers.{sbus_value, sbus_switch}

-- Where a message puts the switch, if it has a third channel that is clearly low (manual) or high.
unfoldable pub position : List ℤ → Option Bool
position channel =
    let c = get_or channel 2 (pos 0) in
    if leb 3 (length channel)
    then (if ltb_ℤ c (pos 800) then some true else if ltb_ℤ (pos 1200) c then some false else none)
    else none

-- What the switch stands at after it, and the change, if it is one.
unfoldable pub after : Option Bool → Bool → Bool
after none last = last
after (some now) last = now

unfoldable pub change : Option Bool → Bool → List Bool
change none last = []
change (some now) last = if (if now then not last else last) then now ∷ [] else []

unfoldable pub changes : Bool → List (List ℤ) → List Bool
changes last [] = []
changes last (m ∷ ms) = change (position m) last ++ changes (after (position m) last) ms

abbrev pub modes_at : Bool → ControlMode
modes_at manual =
    let m = if manual then filtered_rc else auto in
    record cleared { rudder_mode = some m; winch_mode = some m }

module _ (fl : Floats) where
  abbrev pub switched : Bool → Output fl
  switched manual = control_mode (modes_at manual)

  one_message :
      (m : List ℤ) (s : Manager fl)
      → ((step fl (sbus m) s).0.last_sbus_manual ≡ after (position m) s.last_sbus_manual)
        × ((step fl (sbus m) s).1 ≡ map switched (change (position m) s.last_sbus_manual))
  unfolding position step sbus_value sbus_switch after change
  one_message m s = ground arith

  map-append : (xs ys : List Bool) → map switched (xs ++ ys) ≡ map switched xs ++ map switched ys
  map-append [] ys = refl
  map-append (x ∷ xs) ys = ap (λ t. switched x ∷ t) (map-append xs ys)

  -- What the node sends for a run of messages of the remote control are the changes of a switch
  -- with a dead band from 800 to 1200: each sets rudder and winch to the switch's mode and leaves
  -- the tacker alone.
  pub sbus_debounced :
      (ms : List (List ℤ)) (s : Manager fl)
      → (run fl (map sbus ms) s).1 ≡ map switched (changes s.last_sbus_manual ms)
  unfolding run changes
  sbus_debounced [] s = refl
  sbus_debounced (m ∷ ms) s =
      let (l, o) = one_message m s in
      ap₂ ◌++◌ o
        (sbus_debounced ms (step fl (sbus m) s).0 ∙ ap (λ b. map switched (changes b ms)) l)
      ∙ sym (
          map-append (change (position m) s.last_sbus_manual)
            (changes (after (position m) s.last_sbus_manual) ms))
