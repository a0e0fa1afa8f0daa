-- ===== src/Pool/Tests.antt =====
-- The theorems about the pool at concrete histories.
use media_api.Base.{
  arith, false, ℕ, ◌+◌, ◌≤◌, ◌≡◌, ◌≢◌, ◌↔◌, ◌⊎◌, refl, true, none, List, [], ◌∷◌, ◌++◌, Bytes, ok,
  length,
}
use media_api.Soundkit.{item}
use media_api.Fixtures.{mono_clip, plain_options}
use media_api.Pool.Fixtures.{copying, flood, chunk, fed, fed-Reach, flooded, flooded-Reach}
use media_api.Pool.Worker.Deadlock.{Full, Refused, send_deadlock_iff}
use media_api.Pool.Jobs
use media_api.Pool.Jobs.{
  Pool, take_job, crash_job, accepts, takes, crashes, acquire_cases, Reach-jobs,
}
use media_api.Pool.Worker
use media_api.Pool.Worker.{
  Job, new_job, process_job, step_worker, read_input, on_push, works, sends, drop_decoder, Step,
}
use media_api.Pool.Worker.Chunks.{OnlyData}
use media_api.Pool.Worker.Flow.{InFlow, Reach-input}
use media_api.Pool.Worker.Completion.{Draining, at_end, gives, Later, Draining-done}
use media_api.Pool.Pipe.{PipeReach}
use media_api.Pool.Worker.Refinement.{pipe_of, Reach-PipeReach}
use media_api.Pool.Worker.Accounts.{Accounted, Reach-Accounted}

-- A pool of one thread, which is busy with a job, and one more in the channel.
abbrev one_busy : Pool
one_busy = record { pool_size = 1; queue = 8 ∷ []; idle = 0; busy = 1; dead = 0; started = 7 ∷ [] }

one_busy-Reach : Jobs.Reach 1 one_busy (7 ∷ 8 ∷ [])
unfolding Jobs.new Jobs.acquire take_job
one_busy-Reach = accepts 8 (takes (accepts 7 Jobs.here refl)) refl

Reach-jobs_example :
    (0 + 1 + 0 ≡ 1)
    × (length {A = ℕ} (8 ∷ []) ≤ 1)
    × ((one_busy.dead ≡ 1) ⊎ (◌≡◌ {A = List ℕ} (7 ∷ 8 ∷ []) (one_busy.started ++ one_busy.queue)))
Reach-jobs_example = Reach-jobs one_busy-Reach

acquire_cases_example :
    ((Jobs.acquire 9 one_busy ≡ Jobs.shutdown) ↔ (one_busy.dead ≡ 1))
    × ((Jobs.acquire 9 one_busy ≡ Jobs.blocks)
        ↔ ((one_busy.dead ≢ 1) × (length {A = ℕ} (8 ∷ []) ≡ 1)))
acquire_cases_example = acquire_cases 9 one_busy-Reach

-- The job after a chunk is sent, and after the thread has taken it from the channel.
abbrev one_sent : Job copying
one_sent = record (new_job copying plain_options) {
  input = (4 ∷ 2 ∷ []) ∷ [];
  was_sent = (4 ∷ 2 ∷ []) ∷ [];
}

abbrev chunk_read : Job copying
chunk_read = process_job copying one_sent

chunk_read-Reach : Worker.Reach copying plain_options chunk_read
unfolding new_job Worker.send
chunk_read-Reach = Worker.next (Worker.next Worker.here (sends (4 ∷ 2 ∷ []) refl refl)) works

abbrev audio_out : Job copying
audio_out = process_job copying (process_job copying (process_job copying chunk_read))

audio_out-Reach : Worker.Reach copying plain_options audio_out
audio_out-Reach = Worker.next (Worker.next (Worker.next chunk_read-Reach works) works) works

audio_out_test : audio_out.output ≡ ok (record mono_clip { bytes = 4 ∷ 2 ∷ [] }) ∷ []
unfolding new_job process_job
audio_out_test = refl

Reach-input_example : InFlow copying chunk_read × OnlyData copying chunk_read
Reach-input_example = Reach-input copying chunk_read-Reach

Reach-Accounted_example : Accounted copying audio_out
Reach-Accounted_example = Reach-Accounted copying audio_out-Reach

Reach-PipeReach_example : PipeReach copying plain_options (pipe_of copying audio_out)
Reach-PipeReach_example = Reach-PipeReach copying audio_out-Reach

-- A thread that drains two clips.
abbrev draining_two : Job copying
draining_two = record {
  input = [];
  output = [];
  client = true;
  worker = record {
    pc = Worker.finishing;
    pipeline = (4 ∷ []) ∷ (2 ∷ []) ∷ [];
    input_done = true;
    input_bytes = 2;
    output_bytes = 0;
    output_sample_rate = 0;
    output_channels = 0;
    codec = none;
  };
  was_sent = (4 ∷ []) ∷ (2 ∷ []) ∷ [] ∷ [];
  was_taken = (4 ∷ []) ∷ (2 ∷ []) ∷ [];
  was_decoded = [];
  was_received = [];
}

abbrev clip_of : Bytes → Worker.Decoded copying
clip_of bytes = ok (record mono_clip { bytes = bytes })

draining_two-Draining : Draining copying draining_two
draining_two-Draining = record { at_drain = refl; client_waits = refl; nothing_queued = refl }

Draining-done_example :
    (j' : Job copying) × Later copying draining_two j'
    × (j'.worker.pc ≡ Worker.done)
    × (j'.was_received ≡ draining_two.was_received ++ clip_of (4 ∷ []) ∷ clip_of (2 ∷ []) ∷ [])
Draining-done_example =
    Draining-done copying (clip_of (4 ∷ []) ∷ clip_of (2 ∷ []) ∷ []) draining_two
      draining_two-Draining (gives refl (gives refl (at_end refl)))

flooded_test :
    (length flooded.output ≡ 32) × (flooded.worker.pc ≡ Worker.delivering false (ok mono_clip))
unfolding new_job process_job
flooded_test = (refl, refl)

-- With the client's channel full as well, the two wait for each other.
abbrev both_full : Job flood
both_full = fed 32 flooded

both_full-Reach : Worker.Reach flood plain_options both_full
unfolding new_job process_job
both_full-Reach = fed-Reach 32 flooded refl refl (omega arith) flooded-Reach

both_full_waits : Worker.send flood chunk both_full ≡ Worker.waits
unfolding new_job process_job Worker.send
both_full_waits = refl

send_deadlock_iff_example :
    ((process_job flood both_full ≡ both_full) ↔ (Full flood both_full ⊎ Refused flood both_full))
    × ((process_job flood both_full ≡ process_job flood both_full)
        ⊎ ((r : Worker.Decoded flood) × (Worker.try_recv flood both_full
              ≡ item r (process_job flood both_full))))
unfolding new_job process_job
send_deadlock_iff_example = send_deadlock_iff flood chunk both_full-Reach refl both_full_waits works
