-- ===== src/Control/LinePlan/Hypotheses/Paths.antt =====
-- The paths that `GenerateHypotheses` (control/line_plan.cc) returns.
use boat.Prelude.{
  ℕ, zero, suc, ◌+◌, ◌≡◌, refl, Bool, false, List, [], ◌∷◌, ◌++◌, some, ◌==◌, if◌then◌else◌, length,
  get_elem?, All, Bool-cases, inl, inr, arith,
}
use boat.Math.Polygon.{Plane}
use boat.Control.LinePlan.{num}
use boat.Control.LinePlan.Hypotheses.{
  points_from, path_of, straight_point, tacking_paths, relative_wind, generate_hypotheses,
}

suc_not_zero : (n : ℕ) → (suc n == 0) ≡ false
suc_not_zero n = ground arith

module _ (pl : Plane) where
  open pl use {floats, Point, minus}
  open floats use {F, abs, lt}

  -- A path of so many points from the given one.
  abbrev pub IsPathFrom : Point → ℕ → List Point → Type 0
  IsPathFrom startpt n path = (length path ≡ n) × (get_elem? path 0 ≡ some startpt)

  length-points_from : (k ii : ℕ) (at_round : ℕ → Point) → length (points_from pl k ii at_round) ≡ k
  unfolding points_from
  length-points_from zero ii at_round = refl
  length-points_from (suc k) ii at_round = omega (arith, length-points_from k (ii + 1) at_round)

  path_of-IsPathFrom :
      (startpt : Point) (n : ℕ) (at_round : ℕ → Point)
      → IsPathFrom startpt (suc n) (path_of pl startpt n at_round)
  path_of-IsPathFrom startpt n at_round = (omega (arith, length-points_from n 0 at_round), refl)

  tacking_paths-ArePaths :
      (startpt diff : Point) (relwind : F) (n : ℕ)
      → All (IsPathFrom startpt (suc n)) (tacking_paths pl startpt diff relwind n)
  unfolding tacking_paths
  tacking_paths-ArePaths startpt diff relwind n =
      (path_of-IsPathFrom startpt n _, (path_of-IsPathFrom startpt n _, tt))

  -- How many paths there are for a number of points.
  abbrev pub paths_for : Point → Point → F → ℕ → ℕ
  paths_for startpt endpt winddir npts =
      if npts == 0
      then 1
      else if lt (abs (relative_wind pl (minus endpt startpt) winddir)) (num pl 1)
      then 3
      else 1

  -- Behind the paths that are there, unless they are cleared, come one or three, three where points
  -- are asked for and the line is close to the wind. Each has the points that are asked for and
  -- begins with `startpt`.
  pub generate_hypotheses_lem :
      (startpt endpt : Point) (winddir : F) (npts : ℕ) (paths : List (List Point)) (clear : Bool)
      → (added : List (List Point)) × (generate_hypotheses pl startpt endpt winddir npts paths clear
          ≡ (if clear then [] else paths) ++ added)
        × (length added ≡ paths_for startpt endpt winddir npts)
        × All (IsPathFrom startpt (suc npts)) added
  unfolding generate_hypotheses
  generate_hypotheses_lem startpt endpt winddir zero paths clear =
      ((startpt ∷ []) ∷ [], refl, refl, ((refl, refl), tt))
  generate_hypotheses_lem startpt endpt winddir (suc n) paths clear =
      let diff = minus endpt startpt in
      let straight = straight_point pl startpt diff (suc n) in
      elim (Bool-cases (lt (abs (relative_wind pl diff winddir)) (num pl 1))) [
        | inl e ↦ (
          path_of pl startpt (suc n) straight
              ∷ tacking_paths pl startpt diff (relative_wind pl diff winddir) (suc n),
          rw (suc_not_zero n, e),
          rw (suc_not_zero n, e) (unfold tacking_paths in refl),
          (
            path_of-IsPathFrom startpt (suc n) straight,
            tacking_paths-ArePaths startpt diff (relative_wind pl diff winddir) (suc n),
          ),
        )
        | inr e ↦ (
          path_of pl startpt (suc n) straight ∷ [],
          rw (suc_not_zero n, e),
          rw (suc_not_zero n, e),
          (path_of-IsPathFrom startpt (suc n) straight, tt),
        )
      ]
