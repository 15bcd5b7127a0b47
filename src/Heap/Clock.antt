-- ===== src/Heap/Clock.antt =====
-- core/clock.py. A time and a step are integers of one unit, and `steps` is an integer.
use sose.Prelude.{
  List, Result, [], ap, arith, err, if◌then◌else◌, negsuc, ok, pos, pos-add, subst, suc, sym,
  value_error, zero, ℕ, ℤ, ◌*ℤ◌, ◌+ℤ◌, ◌+◌, ◌∙◌, ◌≡◌, ◌∷◌, *ℤ_add, *ℤ_zero, +ℤ_assoc, +ℤ_zero, Bool,
  false, pos_part, true,
}

pub record SimulationClock : Type 0 where
  pub now : ℤ
  pub step : ℤ
  pub tick : ℤ

-- `steps < 1`
unfoldable pub below_one : ℤ → Bool
below_one (pos zero) = true
below_one (pos (suc n)) = false
below_one (negsuc n) = true

unfoldable pub advance : ℤ → SimulationClock → Result ℤ × SimulationClock
unfolding below_one
advance steps c = if below_one steps then (err (value_error "steps must be >= 1"), c) else (
  ok (c.now +ℤ c.step *ℤ steps),
  record c { tick = c.tick +ℤ steps; now = c.now +ℤ c.step *ℤ steps },
)

-- A list of calls of `advance`, of which those with a number below 1 raise.
unfoldable pub advances : List ℤ → SimulationClock → SimulationClock
unfolding advance
advances [] c = c
advances (steps ∷ more) c = advances more (advance steps c).1

-- The steps that the calls with a positive number ask for.
abbrev pub total_steps : List ℤ → ℕ
total_steps [] = 0
total_steps (steps ∷ more) = pos_part steps + total_steps more

abbrev Counted : ℕ → SimulationClock → SimulationClock → Type 0
Counted n c c' = (c'.tick ≡ c.tick +ℤ pos n) × (c'.now ≡ c.now +ℤ c.step *ℤ pos n)

refused :
    (more : List ℤ) (c : SimulationClock)
    → Counted (total_steps more) c (advances more c)
    → Counted (0 + total_steps more) c (advances more c)
refused more c = subst (λ n. Counted n c (advances more c)) (omega arith)

-- Over any calls of `advance`, with numbers of any sign, the tick counts the steps of the calls with
-- a positive number, and the time is the time at the start and one step of the clock for each of
-- them: the other calls raise and change nothing.
pub clock_time :
    (calls : List ℤ) (c : SimulationClock)
    → ((advances calls c).tick ≡ c.tick +ℤ pos (total_steps calls))
      × ((advances calls c).now ≡ c.now +ℤ c.step *ℤ pos (total_steps calls))
unfolding advances advance below_one
clock_time [] c =
    (sym (+ℤ_zero c.tick), sym (ap (λ x. c.now +ℤ x) (*ℤ_zero c.step) ∙ +ℤ_zero c.now))
clock_time (negsuc n ∷ more) c = refused more c (clock_time more c)
clock_time (pos zero ∷ more) c = refused more c (clock_time more c)
clock_time (pos (suc n) ∷ more) c =
    let t = total_steps more in
    let s = c.step in
    let (ticks, now) =
      clock_time more
        (record c { tick = c.tick +ℤ pos (suc n); now = c.now +ℤ s *ℤ pos (suc n) }) in
    (
      ticks ∙ +ℤ_assoc c.tick (pos (suc n)) (pos t) ∙ ap (λ x. c.tick +ℤ x) (pos-add (suc n) t),
      now
          ∙ +ℤ_assoc c.now (s *ℤ pos (suc n)) (s *ℤ pos t)
          ∙ ap (λ x. c.now +ℤ x) (*ℤ_add s (suc n) t),
    )
