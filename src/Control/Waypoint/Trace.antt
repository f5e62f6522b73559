-- ===== src/Control/Waypoint/Trace.antt =====
-- What a run of the waypoint manager keeps and what it sends, from what its steps do.
use boat.Prelude.{ℕ, ◌≡◌, refl, Bool, true, false, List, [], ◌∷◌, ◌++◌, arith, leb, if◌then◌else◌}
use boat.Prelude.Floats.{Floats}
use boat.Control.Waypoint.{Output, control_mode, Manager}
use boat.Control.Waypoint.Run.{Event, sbus, challenge, tick, step, run}

abbrev pub all {ℓ} : {A : Type ℓ} → (A → Bool) → List A → Bool
all test [] = true
all test (x ∷ xs) = if test x then all test xs else false

all-append {ℓ} :
    {A : Type ℓ} (test : A → Bool) (xs ys : List A)
    → all test xs ≡ true
    → all test ys ≡ true
    → all test (xs ++ ys) ≡ true
all-append test [] ys h k = k
all-append test (x ∷ xs) ys h k = ground (arith, all-append test xs ys)

module _ (fl : Floats) where
  -- What the events of a kind keep, a run of them keeps.
  pub run-keeps :
      (P : Manager fl → Type 0) (ok : Event fl → Bool)
      → ((e : Event fl) (s : Manager fl) → ok e ≡ true → P s → P (step fl e s).0)
      → (es : List (Event fl)) (s : Manager fl) → all ok es ≡ true
      → P s
      → P (run fl es s).0
  unfolding run
  run-keeps P ok keep [] s h p = p
  run-keeps P ok keep (e ∷ es) s h p =
      run-keeps P ok keep es (step fl e s).0 (ground arith) (keep e s (ground arith) p)

  -- If besides all that they send passes a test, so does all that a run sends.
  pub run-sends :
      (P : Manager fl → Type 0) (ok : Event fl → Bool) (test : Output fl → Bool)
      → ((e : Event fl) (s : Manager fl) → ok e ≡ true → P s → P (step fl e s).0)
      → ((e : Event fl) (s : Manager fl) → ok e ≡ true → P s → all test (step fl e s).1 ≡ true)
      → (es : List (Event fl)) (s : Manager fl) → all ok es ≡ true
      → P s
      → all test (run fl es s).1 ≡ true
  unfolding run
  run-sends P ok test keep sends [] s h p = refl
  run-sends P ok test keep sends (e ∷ es) s h p =
      all-append test (step fl e s).1 (run fl es (step fl e s).0).1 (sends e s (ground arith) p) (
        run-sends P ok test keep sends es (step fl e s).0 (ground arith)
          (keep e s (ground arith) p))

  -- Everything but a challenge, and but an iteration at a time after `end`.
  unfoldable pub before : ℕ → Event fl → Bool
  before end (challenge c) = false
  before end (tick now later) = leb now end
  before end e = true

  unfoldable pub no_challenge : Event fl → Bool
  no_challenge (challenge c) = false
  no_challenge e = true

  -- Neither a challenge nor a message of the remote control.
  unfoldable pub autonomous : Event fl → Bool
  autonomous (challenge c) = false
  autonomous (sbus channel) = false
  autonomous e = true

  unfoldable pub not_control : Output fl → Bool
  not_control (control_mode msg) = false
  not_control out = true
