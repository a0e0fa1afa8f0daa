-- ===== src/Pool/Jobs.antt =====
-- `DecoderPool`: `new`, `acquire` and the worker threads' loop, as steps on the state of the job
-- channel. A job is a number; what a worker does with it is `process_job`, in the module Worker.
use media_api.Base.{
  ℕ, suc, ◌+◌, ◌-◌, ◌≤◌, ◌<◌, ◌≡◌, ◌≢◌, ◌↔◌, ◌⊎◌, inr, refl, ap, List, [], ◌∷◌, ◌++◌, append_assoc,
  length, length-append, ltb, ◌==◌, if◌then◌else◌, arith,
}

-- The channel's jobs, oldest first, and the threads by what they do: waiting for a job, working on
-- one, or ended by a panic. `started` lists the jobs that were handed to a worker, oldest first.
pub record Pool : Type 0 where
  pub pool_size : ℕ
  pub queue : List ℕ
  pub idle : ℕ
  pub busy : ℕ
  pub dead : ℕ
  pub started : List ℕ

-- `DecoderPool::new`
unfoldable pub new : ℕ → Pool
new size = record { pool_size = size; queue = []; idle = size; busy = 0; dead = 0; started = [] }

pub data Acquired : Type 0 where
  -- the job is in the channel
  acquired : Pool → Acquired
  -- `send` waits for room
  blocks : Acquired
  -- no worker is left to receive: "Decoder pool shutdown"
  shutdown : Acquired

-- `acquire`: `send` on the bounded channel.
unfoldable pub acquire : ℕ → Pool → Acquired
acquire job p =
    if p.idle + p.busy == 0
    then shutdown
    else if ltb (length p.queue) p.pool_size
    then acquired (record p { queue = p.queue ++ job ∷ [] })
    else blocks

-- `recv` by an idle worker.
take_from : List ℕ → Pool → Pool
take_from [] p = p
take_from (job ∷ jobs) p = record p {
  queue = jobs;
  idle = p.idle - 1;
  busy = suc p.busy;
  started = p.started ++ job ∷ [];
}

unfoldable pub take_job : Pool → Pool
unfolding take_from
take_job p = if p.idle == 0 then p else take_from p.queue p

-- `process_job` returns, and the thread waits for the next job.
unfoldable pub finish_job : Pool → Pool
finish_job p = if p.busy == 0 then p else record p { idle = suc p.idle; busy = p.busy - 1 }

-- `process_job` panics and the thread ends; with the last thread the channel's receiver goes, and
-- the jobs in the channel with it.
unfoldable pub crash_job : Pool → Pool
crash_job p = if p.busy == 0 then p else record p {
  busy = p.busy - 1;
  dead = suc p.dead;
  queue = if p.idle + p.busy == 1 then [] else p.queue;
}

-- A history of the pool, with the jobs that `acquire` accepted, oldest first.
pub data Reach (size : ℕ) : Pool → List ℕ → Type 0 where
  here : Reach size (new size) []
  accepts :
      {p q : Pool} {jobs : List ℕ} (job : ℕ)
      → Reach size p jobs
      → acquire job p ≡ acquired q
      → Reach size q (jobs ++ job ∷ [])
  takes : {p : Pool} {jobs : List ℕ} → Reach size p jobs → Reach size (take_job p) jobs
  finishes : {p : Pool} {jobs : List ℕ} → Reach size p jobs → Reach size (finish_job p) jobs
  crashes : {p : Pool} {jobs : List ℕ} → Reach size p jobs → Reach size (crash_job p) jobs

pub record Inv (size : ℕ) (p : Pool) (jobs : List ℕ) : Type 0 where
  pub same_size : p.pool_size ≡ size
  pub threads : p.idle + p.busy + p.dead ≡ size
  pub bounded : length p.queue ≤ size
  pub in_order : (p.dead ≡ size) ⊎ (jobs ≡ p.started ++ p.queue)

acquire-Inv :
    (size job : ℕ) (p q : Pool) (jobs : List ℕ)
    → acquire job p ≡ acquired q
    → Inv size p jobs
    → Inv size q (jobs ++ job ∷ [])
unfolding acquire
acquire-Inv size job p q jobs e v =
    ground (arith, length-append {0} p.queue (job ∷ []), append_assoc p.started p.queue (job ∷ []))

take_from-Inv :
    (size : ℕ) (queue jobs : List ℕ) (p : Pool)
    → p.queue ≡ queue
    → 0 < p.idle
    → Inv size p jobs
    → Inv size (take_from queue p) jobs
unfolding take_from
take_from-Inv size [] jobs p e h v = v
take_from-Inv size (job ∷ queue) jobs p e h v =
    ground (arith, ap length e, append_assoc p.started (job ∷ []) queue)

crash_job-Inv :
    (size : ℕ) (p : Pool) (jobs : List ℕ) → Inv size p jobs → Inv size (crash_job p) jobs
unfolding crash_job
crash_job-Inv size p jobs v = ground arith

Reach-Inv : {size : ℕ} {p : Pool} {jobs : List ℕ} → Reach size p jobs → Inv size p jobs
unfolding new take_job finish_job
Reach-Inv {size} here = record {
  same_size = refl;
  threads = omega arith;
  bounded = omega arith;
  in_order = inr refl;
}
Reach-Inv {size} (accepts {p} {q} {jobs} job r e) = acquire-Inv size job p q jobs e (Reach-Inv r)
Reach-Inv {size} (takes {p} {jobs} r) =
    let v = Reach-Inv r in ground (arith, v, take_from-Inv size p.queue jobs p refl)
Reach-Inv (finishes {p} r) = let v = Reach-Inv r in ground (arith, v)
Reach-Inv {size} (crashes {p} {jobs} r) = crash_job-Inv size p jobs (Reach-Inv r)

-- In every history of a pool: the threads that wait, work or ended by a panic are as many as were
-- spawned; the channel holds at most as many jobs as that; and unless all threads are dead, the jobs
-- that `acquire` accepted are those that were started and then those in the channel, in order, so
-- none is lost or overtaken.
pub Reach-jobs :
    {size : ℕ} {p : Pool} {jobs : List ℕ}
    → Reach size p jobs
    → (p.idle + p.busy + p.dead ≡ size)
      × (length p.queue ≤ size)
      × ((p.dead ≡ size) ⊎ (jobs ≡ p.started ++ p.queue))
Reach-jobs r = let v = Reach-Inv r in (v.threads, v.bounded, v.in_order)

-- `acquire` fails exactly when every thread has ended by a panic, and waits exactly when the channel
-- holds `pool_size` jobs that no thread has taken. So with all threads busy it still accepts that
-- many jobs without waiting.
pub acquire_cases :
    {size : ℕ} {p : Pool} {jobs : List ℕ} (job : ℕ)
    → Reach size p jobs
    → ((acquire job p ≡ shutdown) ↔ (p.dead ≡ size))
      × ((acquire job p ≡ blocks) ↔ ((p.dead ≢ size) × (length p.queue ≡ size)))
unfolding acquire
acquire_cases {size} {p} job r = let v = Reach-Inv r in ground (arith, v)
