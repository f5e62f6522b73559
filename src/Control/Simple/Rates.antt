-- ===== src/Control/Simple/Rates.antt =====
-- How often control/simple.cc sends each of its messages.
use boat.Prelude.{
  ℕ, suc, ◌+◌, ◌-◌, ◌/◌, subst, ◌≡◌, refl, sym, ◌∙◌, Bool, true, false, Option, none, some, List,
  [], ◌∷◌, ◌++◌, arith, if◌then◌else◌,
}
use boat.Prelude.Floats.{Floats}
use boat.Control.Simple.{
  Simple, Output, sail_cmd, rudder_cmd, rigid_wing_cmd, control_consts, Event, control_mode,
  sbus_value, tick, step, run, iterate, updated, on_control_consts, on_heading_cmd, on_sbus, after,
  and_then,
}

module _ (fl : Floats) where
  abbrev pub is_sail : Output fl → Bool
  is_sail (sail_cmd v p) = true
  is_sail o = false

  abbrev pub is_rudder : Output fl → Bool
  is_rudder (rudder_cmd p v) = true
  is_rudder o = false

  abbrev pub is_rigid : Output fl → Bool
  is_rigid (rigid_wing_cmd p) = true
  is_rigid o = false

  abbrev pub is_consts : Output fl → Bool
  is_consts (control_consts c) = true
  is_consts o = false

  abbrev pub count : (Output fl → Bool) → List (Output fl) → ℕ
  count test [] = 0
  count test (o ∷ os) = if test o then suc (count test os) else count test os

  count-append :
      (test : Output fl → Bool) (os ps : List (Output fl))
      → count test (os ++ ps) ≡ count test os + count test ps
  count-append test [] ps = omega arith
  count-append test (o ∷ os) ps = ground (arith, count-append test os ps)

  abbrev pub ticks : List (Event fl) → ℕ
  ticks [] = 0
  ticks (tick ∷ es) = suc (ticks es)
  ticks (e ∷ es) = ticks es

  abbrev pub keeps_mode : List (Event fl) → Bool
  keeps_mode [] = true
  keeps_mode (control_mode m ∷ es) = false
  keeps_mode (e ∷ es) = keeps_mode es

  -- What `n` iterations send, and count.
  pub record IsRated (n : ℕ) (s t : Simple fl) (out : List (Output fl)) : Type 0 where
    pub counted : t.counter ≡ s.counter + n
    pub same_rudder : t.do_rudder ≡ s.do_rudder
    pub same_wing : t.auto_rigid_wing ≡ s.auto_rigid_wing
    pub sails : count is_sail out ≡ n
    pub rudders : count is_rudder out ≡ (if s.do_rudder then n else 0)
    pub rigids :
        count is_rigid out
        ≡ (if s.auto_rigid_wing then (s.counter + n) / 10 - s.counter / 10 else 0)
    pub consts : count is_consts out ≡ (s.counter + n) / 100 - s.counter / 100

  iterate-IsRated : (s : Simple fl) → IsRated 1 s (iterate fl s).0 (iterate fl s).1
  unfolding iterate updated
  iterate-IsRated s = record {
    counted = ground arith;
    same_rudder = ground arith;
    same_wing = ground arith;
    sails = ground arith;
    rudders = ground arith;
    rigids = ground arith;
    consts = ground arith;
  }

  IsRated-trans :
      {n m : ℕ} {s t u : Simple fl} {o p : List (Output fl)}
      → IsRated n s t o
      → IsRated m t u p
      → IsRated (n + m) s u (o ++ p)
  IsRated-trans {o = o} {p = p} a b = record {
    counted = omega (arith, a.counted, b.counted);
    same_rudder = b.same_rudder ∙ a.same_rudder;
    same_wing = b.same_wing ∙ a.same_wing;
    sails = omega (arith, count-append is_sail o p, a.sails, b.sails);
    rudders = ground (arith, count-append is_rudder o p, a.rudders, b.rudders, a.same_rudder);
    rigids = ground (arith, count-append is_rigid o p, a.rigids, b.rigids, a.same_wing, a.counted);
    consts = ground (arith, count-append is_consts o p, a.consts, b.consts, a.counted);
  }

  quiet-IsRated :
      (e : Event fl) {s t : Simple fl} {out : List (Output fl)}
      → ticks (e ∷ []) ≡ 0
      → keeps_mode (e ∷ []) ≡ true
      → step fl e s ≡ some (t, out)
      → IsRated 0 s t out
  unfolding step on_control_consts on_heading_cmd on_sbus
  quiet-IsRated (sbus_value c) z k h = ground arith
  quiet-IsRated tick z k h = absurd (omega arith)
  quiet-IsRated (control_mode m) z k h = cc
  quiet-IsRated e z k h = ground arith

  step-IsRated :
      (e : Event fl) {s t : Simple fl} {out : List (Output fl)}
      → keeps_mode (e ∷ []) ≡ true
      → step fl e s ≡ some (t, out)
      → IsRated (ticks (e ∷ [])) s t out
  step-IsRated tick {s = s} k h =
      unfold step in
      (subst (λ (r : Simple fl × List (Output fl)). IsRated 1 s r.0 r.1) (cc) (iterate-IsRated s))
  step-IsRated (control_mode m) k h = cc
  step-IsRated e k h = quiet-IsRated e refl k h

  after-some :
      (o : List (Output fl)) (m : Option (Simple fl × List (Output fl))) {u : Simple fl}
      {out : List (Output fl)}
      → after fl o m ≡ some (u, out)
      → (p : List (Output fl)) × (m ≡ some (u, p)) × (o ++ p ≡ out)
  after-some o none h = cc
  after-some o (some (u, p)) h = (p, cc, cc)

  pub and_then-some :
      (m : Option (Simple fl × List (Output fl)))
      (f : Simple fl → Option (Simple fl × List (Output fl))) {u : Simple fl}
      {out : List (Output fl)}
      → and_then fl m f ≡ some (u, out)
      → (t : Simple fl) × (o : List (Output fl)) × (p : List (Output fl)) × (m ≡ some (t, o))
        × (f t ≡ some (u, p))
        × (o ++ p ≡ out)
  and_then-some none f h = cc
  and_then-some (some (t, o)) f h = let (p, q, e) = after-some o (f t) h in (t, o, p, refl, q, e)

  ticks-cons : (e : Event fl) (es : List (Event fl)) → ticks (e ∷ es) ≡ ticks (e ∷ []) + ticks es
  ticks-cons tick es = omega arith
  ticks-cons e es = omega arith

  keeps_mode-cons :
      (e : Event fl) (es : List (Event fl))
      → keeps_mode (e ∷ es) ≡ true
      → (keeps_mode (e ∷ []) ≡ true) × (keeps_mode es ≡ true)
  keeps_mode-cons (control_mode m) es h = cc
  keeps_mode-cons e es h = (refl, h)

  none_yet : (s : Simple fl) → IsRated 0 s s []
  none_yet s = record {
    counted = omega arith;
    same_rudder = refl;
    same_wing = refl;
    sails = refl;
    rudders = ground arith;
    rigids = ground arith;
    consts = omega arith;
  }

  -- A run of `n` iterations, with any messages between them but those that set the mode of the rigid
  -- wing: a command for the sail in each iteration, one for the rudder if the node does the rudder, one
  -- for the rigid wing whenever the counter comes to a multiple of ten if it is automatic, and the
  -- constants whenever it comes to a multiple of a hundred.
  pub rates_lem :
      (es : List (Event fl)) (s : Simple fl) {t : Simple fl} {out : List (Output fl)}
      → keeps_mode es ≡ true
      → run fl es s ≡ some (t, out)
      → IsRated (ticks es) s t out
  unfolding run
  rates_lem [] s k h =
      subst (λ (r : Simple fl × List (Output fl)). IsRated 0 s r.0 r.1) (cc) (none_yet s)
  rates_lem (e ∷ es) s {t} {out} k h =
      let (u, o, p, q, r, sent) = and_then-some (step fl e s) (run fl es) h in
      let (first, rest) = keeps_mode-cons e es k in
      let both = IsRated-trans (step-IsRated e first q) (rates_lem es u rest r) in
      subst (λ (n : ℕ). IsRated n s t out) (sym (ticks-cons e es))
        (subst (λ (l : List (Output fl)). IsRated (ticks (e ∷ []) + ticks es) s t l) sent both)
