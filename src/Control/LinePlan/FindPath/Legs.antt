-- ===== src/Control/LinePlan/FindPath/Legs.antt =====
-- The loop over the legs in `FindMultiplePath` (control/line_plan.cc): some hypotheses come out, and
-- each has a path for every leg.
use boat.Prelude.{
  ℕ, zero, suc, ◌+◌, ◌-◌, ◌<◌, ◌≤◌, ◌≡◌, refl, ◌∙◌, ap, subst, false, List, [], ◌∷◌, ◌++◌, map,
  some, length, get_elem?, All, All-append, All-mono, arith,
}
use boat.Math.Polygon.{Plane}
use boat.Control.LinePlan.{Gate}
use boat.Control.LinePlan.Hypotheses.Paths.{IsPathFrom, generate_hypotheses_lem}
use boat.Control.LinePlan.FindPath.{
  Hypothesis, add_leg, leg_hypotheses, legs_from, max_pts_per_leg, all_hypotheses, middle,
}
use boat.Control.LinePlan.FindPath.Fit.{IsFit, add_leg-IsFit}

module _ (pl : Plane) where
  open pl use {floats, Point}
  open floats use {F}

  -- A path for one leg, of at most so many points.
  abbrev IsHypo : Point → ℕ → List Point → Type 0
  IsHypo start most path =
      (0 < length path) × (length path ≤ most) × (get_elem? path 0 ≡ some start)

  leg_hypotheses-AreHypos :
      (start endpt : Point) (winddir : F) (most : ℕ)
      → All (IsHypo start most) (leg_hypotheses pl start endpt winddir most)
  unfolding leg_hypotheses
  leg_hypotheses-AreHypos start endpt winddir zero = tt
  leg_hypotheses-AreHypos start endpt winddir (suc jj) =
      let before = leg_hypotheses pl start endpt winddir jj in
      let (added, e, _, paths) = generate_hypotheses_lem pl start endpt winddir jj before false in
      rw e (
        All-append (IsHypo start (suc jj)) before added
          (All-mono {P = IsHypo start jj} {Q = IsHypo start (suc jj)}
            (λ p h. (h.0, omega (arith, h.1), h.2)) before
            (leg_hypotheses-AreHypos start endpt winddir jj))
          (All-mono {P = IsPathFrom pl start (suc jj)} {Q = IsHypo start (suc jj)}
            (λ p h. (omega (arith, h.0), omega (arith, h.0), h.1)) added paths))

  first_of_one :
      (start : Point) (paths : List (List Point))
      → length paths ≡ 1
      → All (IsPathFrom pl start 1) paths
      → (first : List Point) × (rest : List (List Point)) × (paths ≡ first ∷ rest)
        × (length first ≡ 1)
  first_of_one start [] h k = absurd (omega arith)
  first_of_one start (p ∷ ps) h (k, _) = (p, ps, refl, k.0)

  -- The first path is the starting point alone.
  leg_hypotheses-first :
      (start endpt : Point) (winddir : F) (most : ℕ)
      → (first : List Point) × (rest : List (List Point)) × (leg_hypotheses pl start endpt winddir
            (suc most)
          ≡ first ∷ rest)
        × (length first ≡ 1)
  unfolding leg_hypotheses
  leg_hypotheses-first start endpt winddir zero =
      let (added, e, n, paths) = generate_hypotheses_lem pl start endpt winddir 0 [] false in
      let (first, rest, e', k) = first_of_one start added n paths in (first, rest, e ∙ e', k)
  leg_hypotheses-first start endpt winddir (suc jj) =
      let before = leg_hypotheses pl start endpt winddir (suc jj) in
      let (added, e, n, paths) =
        generate_hypotheses_lem pl start endpt winddir (suc jj) before false in
      let (first, rest, e', k) = leg_hypotheses-first start endpt winddir jj in
      (first, rest ++ added, e ∙ ap (λ t. t ++ added) e', k)

  abbrev AreFit : Point → ℕ → ℕ → List (Hypothesis pl) → Type 0
  AreFit startpt legs limit hs = All (IsFit pl startpt legs limit) hs × (0 < length hs)

  add_leg-AreFit :
      (startpt start endpt : Point) (winddir : F) (most legs limit : ℕ) (hs : List (Hypothesis pl))
      → 0 < legs
      → AreFit startpt legs limit hs
      → AreFit startpt
          (legs + 1)
          (limit + 1)
          (add_leg pl (limit + 1) (leg_hypotheses pl start endpt winddir (suc most)) hs)
  add_leg-AreFit startpt start endpt winddir most legs limit hs some_legs (fit, n) =
      let (first, rest, e, k) = leg_hypotheses-first start endpt winddir most in
      let hypos = leg_hypotheses-AreHypos start endpt winddir (suc most) in
      let (_, rest_some) : All (λ p. 0 < length p) (first ∷ rest) =
        All-mono {P = IsHypo start (suc most)} (λ p h. h.0) (first ∷ rest) (rw e at hypos) in
      rw e (add_leg-IsFit pl startpt legs limit first rest hs some_legs k rest_some n fit)

  abbrev alone : List Point → Hypothesis pl
  alone hypo = record { paths = hypo ∷ []; points = length hypo }

  alone-IsFit :
      (startpt : Point) (limit : ℕ) (hypo : List Point)
      → IsHypo startpt limit hypo
      → IsFit pl startpt 1 limit (alone hypo)
  alone-IsFit startpt limit [] (h, l, e) = absurd (omega arith)
  alone-IsFit startpt limit (p ∷ pts) (h, l, e) = (refl, refl, omega arith, l, e)

  alone-AreFit :
      (startpt : Point) (limit : ℕ) (hypos : List (List Point))
      → All (IsHypo startpt limit) hypos
      → All (IsFit pl startpt 1 limit) (map alone hypos)
  alone-AreFit startpt limit [] h = tt
  alone-AreFit startpt limit (hypo ∷ hypos) (h, hs) =
      (alone-IsFit startpt limit hypo h, alone-AreFit startpt limit hypos hs)

  first_leg-AreFit :
      (startpt endpt : Point) (winddir : F) (most : ℕ)
      → AreFit startpt 1
          (suc most)
          (add_leg pl (suc most) (leg_hypotheses pl startpt endpt winddir (suc most)) [])
  unfolding add_leg
  first_leg-AreFit startpt endpt winddir most =
      let (first, rest, e, k) = leg_hypotheses-first startpt endpt winddir most in
      let hypos = leg_hypotheses-AreHypos startpt endpt winddir (suc most) in
      (
        alone-AreFit startpt (suc most) (leg_hypotheses pl startpt endpt winddir (suc most)) hypos,
        rw e (omega arith),
      )

  legs_from-AreFit :
      (startpt start : Point) (winddir : F) (most legs limit : ℕ) (gates : List (Gate pl))
      (hs : List (Hypothesis pl)) (legs' limit' : ℕ)
      → 0 < legs
      → legs + length gates ≡ legs'
      → limit + length gates ≡ limit'
      → AreFit startpt legs limit hs
      → AreFit startpt legs' limit' (legs_from pl (suc most) (limit + 1) winddir start gates hs)
  unfolding legs_from
  legs_from-AreFit startpt start winddir most legs limit [] hs legs' limit' some_legs l m (fit, n) =
      (
        All-mono {P = IsFit pl startpt legs limit} {Q = IsFit pl startpt legs' limit'}
            (λ h f. (omega (arith, f.0, l), f.1, f.2, omega (arith, f.3, m), f.4)) hs fit,
        n,
      )
  legs_from-AreFit startpt start winddir most legs limit (gate ∷ gates) hs legs' limit' k l m fit =
      legs_from-AreFit startpt (middle pl gate) winddir most (legs + 1) (limit + 1) gates _ legs'
        limit' (omega arith) (omega (arith, l)) (omega (arith, m))
        (add_leg-AreFit startpt start (middle pl gate) winddir most legs limit hs k fit)

  legs-AreFit :
      (startpt : Point) (winddir : F) (most limit : ℕ) (gate : Gate pl) (gates : List (Gate pl))
      → suc most + length gates ≡ limit
      → AreFit startpt
          (suc (length gates))
          limit
          (legs_from pl (suc most) (suc most) winddir startpt (gate ∷ gates) [])
  unfolding legs_from
  legs-AreFit startpt winddir most limit gate gates e =
      legs_from-AreFit startpt (middle pl gate) winddir most 1 (suc most) gates _
        (suc (length gates)) limit (omega arith) (omega arith) (omega (arith, e))
        (first_leg-AreFit startpt (middle pl gate) winddir most)

  -- For some gates there are some hypotheses, with no more points than the bound allows.
  pub all_hypotheses-AreFit :
      (startpt : Point) (gates : List (Gate pl)) (winddir : F)
      → 0 < length gates
      → let n = length gates in
        let hs = all_hypotheses pl startpt gates winddir in
        All (IsFit pl startpt n (max_pts_per_leg n + n - 1)) hs × (0 < length hs)
  unfolding all_hypotheses
  all_hypotheses-AreFit startpt [] winddir h = absurd (omega arith)
  all_hypotheses-AreFit startpt (gate ∷ gates) winddir h =
      let n = suc (length gates) in
      let most = max_pts_per_leg n - 1 in
      let e : suc most ≡ max_pts_per_leg n = omega arith in
      subst
        (λ m.
          AreFit startpt n (max_pts_per_leg n + n - 1)
            (legs_from pl m m winddir startpt (gate ∷ gates) []))
        e (legs-AreFit startpt winddir most (max_pts_per_leg n + n - 1) gate gates (omega arith))
