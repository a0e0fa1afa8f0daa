-- ===== src/Stats.antt =====
-- src/stats.rs. Times are numbers of seconds since a start, and the time of a call is an argument. An
-- average, which the source computes in `f64`, is kept as the exact fraction.
pub mod Window
pub mod Load
pub mod Alarm
mod Tests
use media_api.Base.{
  ℕ, suc, ◌+◌, ◌-◌, ◌*◌, ◌%◌, Bool, true, false, ◌||◌, List, [], ◌∷◌, ◌++◌, length, is_empty,
  usize_mod, ltb, leb, if◌then◌else◌,
}

pub record Sample : Type 0 where
  pub timestamp : ℕ
  pub value : ℕ

-- The samples are oldest first; `poisoned` says that a thread panicked while it held their lock.
pub record Stats : Type 0 where
  pub active_connections : ℕ
  pub samples : List Sample
  pub poisoned : Bool
  pub num_cpus : ℕ
  pub max_samples : ℕ

-- `Stats::new` on a host with so many CPUs.
abbrev pub new : ℕ → Stats
new cpus = record {
  active_connections = 0;
  samples = [];
  poisoned = false;
  num_cpus = cpus;
  max_samples = 6000;
}

-- `while samples.len() > max { samples.pop_front(); }`
unfoldable pub trim : ℕ → List Sample → List Sample
trim most [] = []
trim most (x ∷ xs) = let rest = trim most xs in if ltb most (suc (length xs)) then rest else x ∷ xs

unfoldable pub record_sample : ℕ → ℕ → Stats → Stats
record_sample now value s = if s.poisoned then s else record s {
  samples = trim s.max_samples (s.samples ++ (record { timestamp = now; value = value }) ∷ []);
}

-- `fetch_add(1) + 1`: the new counter, and the count that is recorded after it.
unfoldable pub count_start : Stats → Stats × ℕ
count_start s =
    let count = (s.active_connections + 1) % usize_mod in
    (record s { active_connections = count }, count)

-- `fetch_sub(1) - 1`
unfoldable pub count_end : Stats → Stats × ℕ
count_end s =
    let count = (s.active_connections + usize_mod - 1) % usize_mod in
    (record s { active_connections = count }, count)

unfoldable pub connection_start : ℕ → Stats → Stats
unfolding record_sample count_start
connection_start now s = let (s', count) = count_start s in record_sample now count s'

unfoldable pub connection_end : ℕ → Stats → Stats
unfolding record_sample count_end
connection_end now s = let (s', count) = count_end s in record_sample now count s'

abbrev pub current : Stats → ℕ
current s = s.active_connections

-- A quotient of two numbers.
pub record Ratio : Type 0 where
  pub over : ℕ
  pub under : ℕ

-- `s.timestamp >= now - window`
unfoldable pub relevant : ℕ → ℕ → List Sample → List Sample
relevant now window [] = []
relevant now window (x ∷ xs) =
    let rest = relevant now window xs in if leb now (x.timestamp + window) then x ∷ rest else rest

abbrev pub sum_values : List Sample → ℕ
sum_values [] = 0
sum_values (x ∷ xs) = x.value + sum_values xs

abbrev pub mean : ℕ → List Sample → Ratio
mean default [] = record { over = default; under = 1 }
mean default (x ∷ xs) = record { over = sum_values (x ∷ xs); under = length (x ∷ xs) }

-- With no sample in the window, or a poisoned lock, the current count.
unfoldable pub average : ℕ → ℕ → Stats → Ratio
unfolding relevant
average now window s =
    if s.poisoned
    then record { over = current s; under = 1 }
    else mean (current s) (relevant now window s.samples)

-- `average(window) / num_cpus`
unfoldable pub utilization : ℕ → ℕ → Stats → Ratio
unfolding average
utilization now window s =
    let r = average now window s in record { over = r.over; under = r.under * s.num_cpus }

-- `r >= 1.0`
abbrev pub is_full : Ratio → Bool
is_full r = leb r.under r.over

pub record Report : Type 0 where
  pub current_connections : ℕ
  pub num_cpus : ℕ
  pub pool_size : ℕ
  pub max_concurrent : ℕ
  pub utilization_now : Ratio
  pub util_1s : Ratio
  pub util_10s : Ratio
  pub util_60s : Ratio
  pub util_120s : Ratio
  pub util_300s : Ratio
  pub alarm : Bool

unfoldable pub to_json : ℕ → Stats → Report
unfolding utilization
to_json now s = record {
  current_connections = current s;
  num_cpus = s.num_cpus;
  pool_size = s.num_cpus * 2;
  max_concurrent = s.num_cpus;
  utilization_now = record { over = current s; under = s.num_cpus };
  util_1s = utilization now 1 s;
  util_10s = utilization now 10 s;
  util_60s = utilization now 60 s;
  util_120s = utilization now 120 s;
  util_300s = utilization now 300 s;
  alarm =
      is_full (utilization now 10 s)
      || is_full (utilization now 60 s)
      || is_full (utilization now 120 s)
      || is_full (utilization now 300 s);
}
