-- ===== src/Stats/Tests.antt =====
-- The theorems about the statistics at concrete histories.
use media_api.Base.{◌≡◌, ◌-◌, refl, true, false, List, [], ◌∷◌, arith, length, drop}
use media_api.Stats.{Sample, Stats, new, count_start, record_sample, to_json}
use media_api.Stats.Window.{record_all, record_all-samples}
use media_api.Stats.Alarm.{Reach-alarm}
use media_api.Stats.Load.{System, starts, records, Reach, here, next, Counted, Reach-Counted}

-- A queue for two samples.
abbrev narrow : Stats
narrow = record (new 4) { max_samples = 2 }

abbrev three_samples : List Sample
three_samples =
    record { timestamp = 1; value = 1 }
    ∷ record { timestamp = 2; value = 2 }
    ∷ record { timestamp = 2; value = 1 }
    ∷ []

record_all-samples_example :
    (record_all three_samples narrow).samples
    ≡ drop (length three_samples - narrow.max_samples) three_samples
record_all-samples_example = record_all-samples three_samples narrow refl refl

-- One connection of at most one, on a host with two CPUs, whose start is counted and then recorded.
abbrev one_started : System
one_started = record { stats = (count_start (new 2)).0; live = 1; waiting = 1 ∷ [] }

abbrev one_recorded : System
one_recorded = record { stats = record_sample 50 1 (count_start (new 2)).0; live = 1; waiting = [] }

one_recorded-Reach : Reach 1 2 one_recorded
unfolding count_start
one_recorded-Reach = next (next here (starts (omega arith))) (records 50 [] [] 1 refl)

Reach-Counted_example : Counted 1 2 one_recorded
Reach-Counted_example = Reach-Counted (omega arith) one_recorded-Reach

Reach-alarm_example : (to_json 55 one_recorded.stats).alarm ≡ false
Reach-alarm_example = Reach-alarm 55 (omega arith) (omega arith) one_recorded-Reach

-- The same host with two connections for a minute: the alarm is on.
abbrev two_recorded : Stats
two_recorded = record (new 2) {
  active_connections = 2;
  samples = record { timestamp = 50; value = 2 } ∷ [];
}

alarm_test : (to_json 55 two_recorded).alarm ≡ true
unfolding to_json
alarm_test = refl
