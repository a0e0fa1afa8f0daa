-- ===== src/Stats/Load.antt =====
-- Connections that start and end in any order, on any thread. The counter's update and the sample
-- that follows it are two steps, so samples may be recorded late and out of order.
use media_api.Base.{
  usize_mod, ℕ, suc, ◌-◌, ◌≤◌, ◌<◌, ◌≡◌, refl, subst, ◌∙◌, Bool, true, false, List, [], ◌∷◌, ◌++◌,
  length, ltb, if◌then◌else◌, arith, All, All-append,
}
use media_api.Stats.{Sample, Stats, new, trim, record_sample, count_start, count_end}
use media_api.Stats.Window.{length-trim-le}

-- The statistics, the number of guards alive, and the counts on their way to a sample.
pub record System : Type 0 where
  pub stats : Stats
  pub live : ℕ
  pub waiting : List ℕ

-- One step, with at most `most` connections at a time.
pub data Step (most : ℕ) (s : System) : System → Type 0 where
  starts :
      s.live < most
      → Step most s (record {
        stats = (count_start s.stats).0;
        live = suc s.live;
        waiting = (count_start s.stats).1 ∷ s.waiting;
      })
  ends :
      0 < s.live
      → Step most s (record {
        stats = (count_end s.stats).0;
        live = s.live - 1;
        waiting = (count_end s.stats).1 ∷ s.waiting;
      })
  records :
      (now : ℕ) (before after : List ℕ) (count : ℕ)
      → s.waiting ≡ before ++ count ∷ after
      → Step most s
          (record s { stats = record_sample now count s.stats; waiting = before ++ after })

abbrev pub start : ℕ → System
start cpus = record { stats = new cpus; live = 0; waiting = [] }

pub data Reach (most cpus : ℕ) : System → Type 0 where
  here : Reach most cpus (start cpus)
  next : {s t : System} → Reach most cpus s → Step most s t → Reach most cpus t

abbrev pub AtMost : ℕ → Sample → Type 0
AtMost n x = x.value ≤ n

pub record Counted (most cpus : ℕ) (s : System) : Type 0 where
  pub counted : s.stats.active_connections ≡ s.live
  pub within : s.live ≤ most
  pub fits : length s.stats.samples ≤ s.stats.max_samples
  pub same_max : s.stats.max_samples ≡ 6000
  pub same_cpus : s.stats.num_cpus ≡ cpus
  pub samples_within : All (AtMost most) s.stats.samples
  pub waiting_within : All (λ n. n ≤ most) s.waiting

All-trim : (P : Sample → Type 0) (most : ℕ) (xs : List Sample) → All P xs → All P (trim most xs)
unfolding trim
All-trim P most [] h = tt
All-trim P most (x ∷ xs) (h, hs) = go (ltb most (suc (length xs))) (All-trim P most xs hs)
  where
    go : (b : Bool) → All P (trim most xs) → All P (if b then trim most xs else x ∷ xs)
    go true k = k
    go false k = (h, hs)

All-middle :
    (P : ℕ → Type 0) (xs : List ℕ) (y : ℕ) (ys : List ℕ)
    → All P (xs ++ y ∷ ys)
    → P y × All P (xs ++ ys)
All-middle P [] y ys (h, hs) = (h, hs)
All-middle P (x ∷ xs) y ys (h, hs) = let (py, rest) = All-middle P xs y ys hs in (py, (h, rest))

-- What a sample leaves of the fields that the invariant names.
record_sample-Counted :
    (most cpus now count : ℕ) (s : Stats)
    → count ≤ most
    → length s.samples ≤ s.max_samples
    → All (AtMost most) s.samples
    → let t = record_sample now count s in
      (t.active_connections ≡ s.active_connections)
      × (length t.samples ≤ t.max_samples)
      × (t.max_samples ≡ s.max_samples)
      × (t.num_cpus ≡ s.num_cpus)
      × All (AtMost most) t.samples
unfolding record_sample
record_sample-Counted most cpus now count s le fits all =
    let x : Sample = record { timestamp = now; value = count } in
    ground (
      arith,
      length-trim-le s.max_samples (s.samples ++ x ∷ []),
      All-trim (AtMost most) s.max_samples (s.samples ++ x ∷ [])
          (All-append (AtMost most) s.samples (x ∷ []) all (le, tt)),
    )

Step-Counted :
    {most cpus : ℕ} {s t : System}
    → most < usize_mod
    → Step most s t
    → Counted most cpus s
    → Counted most cpus t
unfolding count_start count_end
Step-Counted {most} {cpus} {s} small (starts lt) v = record {
  counted = omega (arith, v.counted);
  within = lt;
  fits = v.fits;
  same_max = v.same_max;
  same_cpus = v.same_cpus;
  samples_within = v.samples_within;
  waiting_within = (omega (arith, v.counted), v.waiting_within);
}
Step-Counted {most} {cpus} {s} small (ends pos) v = record {
  counted = omega (arith, v.counted, v.within);
  within = omega (arith, v.within);
  fits = v.fits;
  same_max = v.same_max;
  same_cpus = v.same_cpus;
  samples_within = v.samples_within;
  waiting_within = (omega (arith, v.counted, v.within), v.waiting_within);
}
Step-Counted {most} {cpus} {s} small (records now before after count e) v =
    let (le, rest) =
      All-middle (λ n. n ≤ most) before count after
        (subst (All (λ n. n ≤ most)) e v.waiting_within) in
    let r = record_sample-Counted most cpus now count s.stats le v.fits v.samples_within in
    record {
      counted = r.0 ∙ v.counted;
      within = v.within;
      fits = r.1;
      same_max = r.2 ∙ v.same_max;
      same_cpus = r.3 ∙ v.same_cpus;
      samples_within = r.4;
      waiting_within = rest;
    }

-- In every state that connections can reach, the counter is the number of guards alive, the queue holds
-- at most 6000 samples, and no sample exceeds the largest number of connections there were at a time.
pub Reach-Counted :
    {most cpus : ℕ} {s : System} → most < usize_mod → Reach most cpus s → Counted most cpus s
Reach-Counted small here = record {
  counted = refl;
  within = omega arith;
  fits = omega arith;
  same_max = refl;
  same_cpus = refl;
  samples_within = tt;
  waiting_within = tt;
}
Reach-Counted small (next r st) = Step-Counted small st (Reach-Counted small r)
