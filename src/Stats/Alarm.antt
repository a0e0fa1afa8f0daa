-- ===== src/Stats/Alarm.antt =====
-- The alarm of `Stats::to_json` in the states that connections can reach.
use media_api.Base.{
  usize_mod, ℕ, ◌+◌, ◌*◌, ◌≤◌, ◌<◌, ◌≡◌, Bool, true, false, List, [], ◌∷◌, length, leb, leb→le,
  if◌then◌else◌, arith, All, Bool-cases, inl, inr,
}
use media_api.Stats.{
  Sample, Stats, current, Ratio, relevant, sum_values, mean, average, utilization, is_full, to_json,
}
use media_api.Stats.Load.{System, Reach, AtMost, Counted, Reach-Counted}

sum_values-le :
    (most : ℕ) (xs : List Sample) → All (AtMost most) xs → sum_values xs ≤ most * length xs
sum_values-le most [] h = omega arith
sum_values-le most (x ∷ xs) (h, hs) = omega (arith, sum_values-le most xs hs)

relevant-All :
    (P : Sample → Type 0) (now window : ℕ) (xs : List Sample)
    → All P xs
    → All P (relevant now window xs)
unfolding relevant
relevant-All P now window [] h = tt
relevant-All P now window (x ∷ xs) (h, hs) =
    go (leb now (x.timestamp + window)) (relevant-All P now window xs hs)
  where
    go :
        (b : Bool)
        → All P (relevant now window xs)
        → All P (if b then x ∷ relevant now window xs else relevant now window xs)
    go true k = (h, k)
    go false k = k

-- A mean of numbers up to `most`.
MeanWithin : ℕ → Ratio → Type 0
MeanWithin most r = (0 < r.under) × (r.over ≤ most * r.under)

mean-MeanWithin :
    (most default : ℕ) (xs : List Sample)
    → default ≤ most
    → All (AtMost most) xs
    → MeanWithin most (mean default xs)
unfolding MeanWithin
mean-MeanWithin most default [] h hs = (omega arith, omega arith)
mean-MeanWithin most default (x ∷ xs) h hs = (omega arith, sum_values-le most (x ∷ xs) hs)

average-MeanWithin :
    (most now window : ℕ) (s : Stats)
    → current s ≤ most
    → All (AtMost most) s.samples
    → MeanWithin most (average now window s)
unfolding average
average-MeanWithin most now window s h hs = go s.poisoned
  where
    go :
        (b : Bool)
        → MeanWithin most (
            if b
            then record { over = current s; under = 1 }
            else mean (current s) (relevant now window s.samples))
    go true = unfold MeanWithin in (omega arith, omega arith)
    go false =
        mean-MeanWithin most (current s) _ h (relevant-All (AtMost most) now window s.samples hs)

below_capacity :
    (most cpus over under : ℕ)
    → most < cpus
    → 0 < under
    → over ≤ most * under
    → leb (under * cpus) over ≡ false
below_capacity most cpus over under lt pos le = elim (Bool-cases (leb (under * cpus) over)) [
  | inl full ↦ absurd (grind (arith, leb→le (under * cpus) over full))
  | inr free ↦ free
]

not_full :
    (most now window : ℕ) (s : Stats)
    → most < s.num_cpus
    → current s ≤ most
    → All (AtMost most) s.samples
    → is_full (utilization now window s) ≡ false
unfolding utilization MeanWithin
not_full most now window s lt h hs =
    let (pos, le) = average-MeanWithin most now window s h hs in
    below_capacity most s.num_cpus (average now window s).over (average now window s).under lt pos
      le

-- If there were never as many connections at a time as there are CPUs, the alarm is off, whatever
-- the time and the order in which threads recorded their samples.
pub Reach-alarm :
    {most cpus : ℕ} {s : System} (now : ℕ)
    → cpus < usize_mod
    → most < cpus
    → Reach most cpus s
    → (to_json now s.stats).alarm ≡ false
unfolding to_json
Reach-alarm {most} {cpus} {s} now small lt r =
    let v : Counted most cpus s = Reach-Counted (omega arith) r in
    let off = λ (window : ℕ).
      not_full most now window s.stats (omega (arith, v.same_cpus))
        (omega (arith, v.counted, v.within)) v.samples_within in
    cc (off 10, off 60, off 120, off 300)
