-- ===== src/Benchmark/Quality/Peak.antt =====
-- `max_abs` of `compare_pcm` against the distances of the samples.
use media_api.Base.{
  ℕ, ◌≤◌, ◌<◌, ◌≡◌, ◌⊎◌, inl, inr, refl, ap, ◌∙◌, Bool, true, false, Option, none, some, List, [],
  ◌∷◌, length, min, max, ◌==◌, Result, ok, err, arith, All, Bool-cases, ==_iff,
}
use media_api.Base.Integers.{ℤ, pos, distance, IsI16}
use media_api.Benchmark.Packets.{Failure}
use media_api.Benchmark.Quality.Errors.{wrapped, folded, raise, raise-wrapped, i16_error-cases}
use media_api.Benchmark.Quality.{
  Floats, Quality, Sums, no_sums, add_pair, compare_loop, on_sums, compare_pcm,
}

-- The largest distance of two samples at the same place, as `f` measures it.
abbrev pub largest : (ℕ → ℕ) → List ℤ → List ℤ → ℕ
largest f [] decoded = 0
largest f (r ∷ reference) [] = 0
largest f (r ∷ reference) (d ∷ decoded) = max (f (distance r d)) (largest f reference decoded)

abbrev pub exact : ℕ → ℕ
exact d = d

largest-exact :
    (reference decoded : List ℤ)
    → largest exact reference decoded ≤ 32767
    → largest folded reference decoded ≡ largest exact reference decoded
largest-exact [] decoded h = refl
largest-exact (r ∷ reference) [] h = refl
largest-exact (r ∷ reference) (d ∷ decoded) h = ground (arith, largest-exact reference decoded)

largest-folded-le : (reference decoded : List ℤ) → largest folded reference decoded ≤ 32767
largest-folded-le [] decoded = omega arith
largest-folded-le (r ∷ reference) [] = omega arith
largest-folded-le (r ∷ reference) (d ∷ decoded) =
    ground (arith, largest-folded-le reference decoded)

max_assoc : (a b c : ℕ) → max (max a b) c ≡ max a (max b c)
max_assoc a b c = omega arith

module _ (fl : Floats) where
  -- How the loop ends, from a peak of `k` on.
  abbrev Ends : Bool → ℕ → List ℤ → List ℤ → Option (Sums fl) → Type 0
  Ends checks k reference decoded none = (checks ≡ true) × (32767 < largest exact reference decoded)
  Ends checks k reference decoded (some s) =
      (s.peak_err ≡ pos (max k (largest folded reference decoded)))
      × ((checks ≡ false) ⊎ (largest exact reference decoded ≤ 32767))

  near-Ends :
      (checks : Bool) (k : ℕ) (r d : ℤ) (reference decoded : List ℤ) (o : Option (Sums fl))
      → (checks ≡ false) ⊎ (distance r d ≤ 32767)
      → Ends checks (max k (folded (distance r d))) reference decoded o
      → Ends checks k (r ∷ reference) (d ∷ decoded) o
  near-Ends checks k r d reference decoded none near (on, far) = (on, omega arith)
  near-Ends checks k r d reference decoded (some s) near (peak, rest) = (
    peak ∙ ap pos (max_assoc k (folded (distance r d)) (largest folded reference decoded)),
    both near rest,
  )
    where
      both :
          (checks ≡ false) ⊎ (distance r d ≤ 32767)
          → (checks ≡ false) ⊎ (largest exact reference decoded ≤ 32767)
          → (checks ≡ false) ⊎ (largest exact (r ∷ reference) (d ∷ decoded) ≤ 32767)
      both (inl off) h = inl off
      both (inr h) (inl off) = inl off
      both (inr h) (inr h') = inr (omega arith)

  compare_loop-Ends :
      (checks : Bool) (reference decoded : List ℤ) (k : ℕ) (s : Sums fl)
      → All IsI16 reference
      → All IsI16 decoded
      → s.peak_err ≡ pos k
      → Ends checks k reference decoded (compare_loop fl checks reference decoded s)
  unfolding compare_loop
  compare_loop-Ends checks [] decoded k s hr hd e = (ground arith, inr (omega arith))
  compare_loop-Ends checks (r ∷ reference) [] k s hr hd e = (ground arith, inr (omega arith))
  compare_loop-Ends checks (r ∷ reference) (d ∷ decoded) k s (r16, hr) (d16, hd) e =
      elim (i16_error-cases checks r d r16 d16) [
        | inl (on, far, q) ↦ rw q (on, omega arith)
        | inr (near, q) ↦ rw q (
            near-Ends checks k r d reference decoded _ near (
              compare_loop-Ends checks reference decoded (max k (folded (distance r d)))
                (add_pair fl r d s (wrapped (distance r d))) hr hd
                (ap (λ peak. raise peak (wrapped (distance r d))) e
                  ∙ raise-wrapped k (distance r d) (omega arith))))
      ]

  -- How the comparison ends.
  abbrev pub Compared : Bool → List ℤ → List ℤ → Result (Option (Quality fl)) Failure → Type 0
  Compared checks reference decoded (err e) =
      (checks ≡ true) × (32767 < largest exact reference decoded)
  Compared checks reference decoded (ok none) = min (length reference) (length decoded) ≡ 0
  Compared checks reference decoded (ok (some q)) =
      (q.sample_count ≡ min (length reference) (length decoded))
      × (((largest exact reference decoded ≤ 32767)
            × (q.max_abs ≡ pos (largest exact reference decoded)))
          ⊎ ((32767 < largest exact reference decoded)
              × (checks ≡ false)
              × (q.max_abs ≡ pos (largest folded reference decoded))
              × (largest folded reference decoded ≤ 32767)))

  on_sums-Compared :
      (checks : Bool) (reference decoded : List ℤ) (o : Option (Sums fl))
      → Ends checks 0 reference decoded o
      → Compared checks reference decoded (on_sums fl reference decoded o)
  on_sums-Compared checks reference decoded none h = h
  on_sums-Compared checks reference decoded (some s) (peak, h) = (
    refl,
    ground (arith, peak, h, largest-exact reference decoded, largest-folded-le reference decoded),
  )

-- Of two tracks of 16-bit samples, `max_abs` is exactly the largest distance of two samples at the same
-- place, if that is at most 32767. If it is larger, a build that checks for overflow panics, and one that
-- does not reports a smaller number, in which each such distance counts as what is left of it up to 65536.
pub compare_pcm_max_abs :
    (fl : Floats) (checks : Bool) (reference decoded : List ℤ)
    → All IsI16 reference
    → All IsI16 decoded
    → Compared fl checks reference decoded (compare_pcm fl checks reference decoded)
unfolding compare_pcm
compare_pcm_max_abs fl checks reference decoded hr hd =
    elim (Bool-cases (min (length reference) (length decoded) == 0)) [
      | inl e ↦ rw e ((==_iff _ 0).0 e)
      | inr e ↦ rw e (
          on_sums-Compared fl checks reference decoded
            (compare_loop fl checks reference decoded (no_sums fl))
            (compare_loop-Ends fl checks reference decoded 0 (no_sums fl) hr hd refl))
    ]
