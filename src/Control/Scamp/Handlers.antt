-- ===== src/Control/Scamp/Handlers.antt =====
-- The handlers and `Iterate` of control/scamp.cc, and runs of the node. `none` is a read of a channel
-- that the message does not have.
use boat.Prelude.{
  ℕ, Bool, true, false, Option, none, some, List, [], ◌∷◌, leb, if◌then◌else◌, length, get_elem?,
}
use boat.Prelude.Int.{ℤ, pos, ◌-ℤ◌}
use boat.Prelude.Floats.{Floats}
use boat.Control.Waypoint.{Mode, manual_rc, auto, manual_wifi, disable, filtered_rc}
use boat.Control.Scamp.{
  or_zero, to_u32, Modes, number, or_default, Consts, InternalState, BallastCmd, Output,
  internal_state, pwm, zeroing_consts, written, Scamp, sbus_to_raw, set_raw_from_sail_cmd,
  set_raw_from_rudder_cmd, set_raw_from_ballast_cmd, winch_pot_to_angle,
}

abbrev pub is_mode : Mode → Mode → Bool
is_mode manual_rc manual_rc = true
is_mode auto auto = true
is_mode manual_wifi manual_wifi = true
is_mode disable disable = true
is_mode filtered_rc filtered_rc = true
is_mode m n = false

abbrev pub or_keep {ℓ} : {A : Type ℓ} → Option A → A → A
or_keep none a = a
or_keep (some b) a = b

abbrev pub both_or_keep : Option ℤ → Option ℤ → Option ℤ × Option ℤ → Option ℤ × Option ℤ
both_or_keep (some a) (some b) old = (some a, some b)
both_or_keep (some a) none old = old
both_or_keep none b old = old

abbrev pub option_or : Option ℤ → Option ℤ → Option ℤ
option_or none old = old
option_or (some a) old = some a

module _ (fl : Floats) where
  open fl use {F, add, sub, mul, div, neg, narrow, trunc, of_int, literal, pi}

  abbrev pub Step : Type 0
  Step = Scamp fl × List (Output fl)

  abbrev option_or_F : Option F → Option F → Option F
  option_or_F none old = old
  option_or_F (some a) old = some a

  -- The two ends of the winch are set together or not at all.
  unfoldable pub on_zeroing_consts : Consts fl → Scamp fl → Step
  on_zeroing_consts msg s =
      let old = s.consts in
      let (low, high) =
        both_or_keep msg.winch_0_pot msg.winch_90_pot (old.winch_0_pot, old.winch_90_pot) in
      let c = record old {
        winch_0_pot = low;
        winch_90_pot = high;
        rudder_zero = option_or msg.rudder_zero old.rudder_zero;
        ballast_zero = option_or_F msg.ballast_zero old.ballast_zero;
        winch_out_angle = option_or_F msg.winch_out_angle old.winch_out_angle;
      } in
      (record s { consts = c }, if msg.write_constants then written c ∷ [] else [])

  unfoldable pub on_analog_pot : ℕ → Scamp fl → Step
  on_analog_pot val s =
      let sail = winch_pot_to_angle fl (narrow (of_int (pos val))) s in
      let rudder =
        div (mul (of_int (s.raw_rudder -ℤ or_zero s.consts.rudder_zero)) pi) (number fl 180) in
      let msg : InternalState fl = record {
        sail = some (narrow sail);
        rudder = some (narrow rudder);
        ballast = none;
      } in
      (record s { sail_pos = sail; state_msg = msg }, internal_state msg ∷ [])

  unfoldable pub on_ballast_state : Option F → Scamp fl → Step
  on_ballast_state none s = (s, [])
  on_ballast_state (some ballast) s =
      let angle = narrow (sub ballast (or_default fl s.consts.ballast_zero)) in
      let msg : InternalState fl = record { sail = none; rudder = none; ballast = some angle } in
      (record s { ballast_pos = angle; state_msg = msg }, internal_state msg ∷ [])

  -- A command counts in one mode only.
  unfoldable pub on_sail_cmd : Mode → Option F → Scamp fl → Step
  on_sail_cmd m voltage s = (
    if is_mode s.winch_mode m then record s { volts_winch = trunc (or_default fl voltage) } else s,
    [],
  )

  unfoldable pub on_rudder_cmd : Mode → Option F → Scamp fl → Step
  on_rudder_cmd m position s = (
    if is_mode s.rudder_mode m then set_raw_from_rudder_cmd fl (or_default fl position) s else s,
    [],
  )

  unfoldable pub on_ballast_cmd : Mode → BallastCmd fl → Scamp fl → Step
  on_ballast_cmd m cmd s =
      (if is_mode s.ballast_mode m then set_raw_from_ballast_cmd fl cmd s else s, [])

  -- The remote control. Channels are looked up as they are needed.
  pub sbus_rudder : List ℤ → Scamp fl → Option (Scamp fl)
  sbus_rudder channel s =
      let off = λ (c : ℤ). sub (of_int (sbus_to_raw fl c)) (number fl 90) in
      if is_mode s.rudder_mode manual_rc
      then elim (get_elem? channel 3) [
        | none ↦ none
        | some c ↦
            some (record s { raw_rudder = trunc (add (mul (off c) (literal 1 2)) (number fl 90)) })
      ]
      else if is_mode s.rudder_mode filtered_rc
      then elim (get_elem? channel 3) [
        | none ↦ none
        | some c ↦ some (record s {
          raw_rudder =
              trunc
                (add (mul (neg (off c)) (literal 6 10)) (of_int (or_zero s.consts.rudder_zero)));
        })
      ]
      else some s

  pub sbus_winch : List ℤ → Scamp fl → Option (Scamp fl)
  sbus_winch channel s =
      if is_mode s.winch_mode manual_rc
      then elim (get_elem? channel 1) [
        | none ↦ none
        | some c ↦ some (record s { raw_winch = sbus_to_raw fl c })
      ]
      else if is_mode s.winch_mode filtered_rc
      then elim (get_elem? channel 1) [
        | none ↦ none
        | some c ↦ some (record s {
          volts_winch = trunc (
              div (mul (neg (sub (of_int (sbus_to_raw fl c)) (number fl 90))) (number fl 6))
                (number fl 90));
        })
      ]
      else some s

  unfoldable pub on_sbus : List ℤ → Scamp fl → Option (Scamp fl)
  unfolding sbus_rudder sbus_winch
  on_sbus channel s =
      if leb 2 (length channel)
      then elim (sbus_rudder channel s) [ none ↦ none | some t ↦ sbus_winch channel t ]
      else some s

  -- What is disabled goes to its middle.
  unfoldable pub on_control_mode : Modes → Scamp fl → Step
  on_control_mode msg s =
      let winch = or_keep msg.winch_mode s.winch_mode in
      let rudder = or_keep msg.rudder_mode s.rudder_mode in
      let ballast = or_keep msg.ballast_mode s.ballast_mode in
      (
        record s {
          winch_mode = winch;
          rudder_mode = rudder;
          ballast_mode = ballast;
          raw_rudder = if is_mode rudder disable then pos 90 else s.raw_rudder;
          raw_winch = if is_mode winch disable then pos 90 else s.raw_winch;
          raw_ballast = if is_mode ballast disable then pos 90 else s.raw_ballast;
        },
        [],
      )

  abbrev pub follows_volts : Mode → Bool
  follows_volts auto = true
  follows_volts manual_wifi = true
  follows_volts filtered_rc = true
  follows_volts m = false

  unfoldable pub iterate : Scamp fl → Step
  iterate s =
      let t =
        if follows_volts s.winch_mode
        then set_raw_from_sail_cmd fl (narrow (of_int s.volts_winch)) s
        else s in
      (
        t,
        pwm (to_u32 t.raw_winch) (to_u32 t.raw_rudder) (to_u32 t.raw_ballast)
            ∷ zeroing_consts t.consts
            ∷ [],
      )

  -- A message on one of the queues, or the next round of the loop.
  pub data Event : Type 0 where
    consts_msg : Consts fl → Event
    analog_pot : ℕ → Event
    ballast_state : Option F → Event
    sail_cmd : Option F → Event
    manual_sail_cmd : Option F → Event
    rudder_cmd : Option F → Event
    manual_rudder_cmd : Option F → Event
    ballast_cmd : BallastCmd fl → Event
    manual_ballast_cmd : BallastCmd fl → Event
    sbus_value : List ℤ → Event
    connection_status : Bool → Event
    control_mode : Modes → Event
    tick : Event

  unfoldable pub step : Event → Scamp fl → Option Step
  step (consts_msg c) s = some (on_zeroing_consts c s)
  step (analog_pot val) s = some (on_analog_pot val s)
  step (ballast_state b) s = some (on_ballast_state b s)
  step (sail_cmd v) s = some (on_sail_cmd auto v s)
  step (manual_sail_cmd v) s = some (on_sail_cmd manual_wifi v s)
  step (rudder_cmd p) s = some (on_rudder_cmd auto p s)
  step (manual_rudder_cmd p) s = some (on_rudder_cmd manual_wifi p s)
  step (ballast_cmd c) s = some (on_ballast_cmd auto c s)
  step (manual_ballast_cmd c) s = some (on_ballast_cmd manual_wifi c s)
  step (sbus_value channel) s = elim (on_sbus channel s) [ none ↦ none | some t ↦ some (t, []) ]
  step (connection_status b) s = some (record s { is_connected = b }, [])
  step (control_mode m) s = some (on_control_mode m s)
  step tick s = some (iterate s)

  -- The state behind a sequence of events.
  abbrev pub and_then : Option Step → (Scamp fl → Option (Scamp fl)) → Option (Scamp fl)
  and_then none f = none
  and_then (some (t, out)) f = f t

  unfoldable pub run : List Event → Scamp fl → Option (Scamp fl)
  run [] s = some s
  run (e ∷ es) s = and_then (step e s) (run es)
