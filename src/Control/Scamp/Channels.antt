-- ===== src/Control/Scamp/Channels.antt =====
-- The channels that the handler of the remote control reads (control/scamp.cc).
use boat.Prelude.{
  ◌≡◌, refl, Bool, true, false, ◌&&◌, ◌||◌, Option, none, some, [], ◌∷◌, arith, length, leb, ltb,
}
use boat.Prelude.Floats.{Floats}
use boat.Control.Waypoint.{Mode, manual_rc, filtered_rc}
use boat.Control.Scamp.{Scamp}
use boat.Control.Scamp.Handlers.{is_mode, Event, sbus_value, step, on_sbus}

abbrev pub is_none {ℓ} : {A : Type ℓ} → Option A → Bool
is_none none = true
is_none (some a) = false

-- A message of two or three channels, while the remote control steers.
abbrev pub lacks_channel : {fl : Floats} → Mode → Event fl → Bool
lacks_channel m (sbus_value c) =
    (leb 2 (length c) && ltb (length c) 4) && (is_mode m manual_rc || is_mode m filtered_rc)
lacks_channel m e = false

module _ (fl : Floats) where
  -- The node reads a channel that a message does not have exactly for a message of two or three
  -- channels while the rudder is steered by the remote control: the test for two channels does not
  -- cover the fourth.
  missing_channel_iff :
      (e : Event fl) (s : Scamp fl) → is_none (step fl e s) ≡ lacks_channel s.rudder_mode e
  unfolding step on_sbus
  missing_channel_iff (sbus_value []) s = ground arith
  missing_channel_iff (sbus_value (a ∷ [])) s = ground arith
  missing_channel_iff (sbus_value (a ∷ b ∷ [])) s = ground arith
  missing_channel_iff (sbus_value (a ∷ b ∷ c ∷ [])) s = ground arith
  missing_channel_iff (sbus_value (a ∷ b ∷ c ∷ d ∷ ds)) s = ground arith
  missing_channel_iff e s = refl
