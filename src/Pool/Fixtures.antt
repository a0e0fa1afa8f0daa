-- ===== src/Pool/Fixtures.antt =====
-- Pipelines and jobs, at which the theorems about the pool are run.
use media_api.Base.{
  ℕ, zero, suc, ◌+◌, ◌≤◌, ◌<◌, ◌≡◌, refl, ap, ◌∙◌, true, false, List, [], ◌∷◌, ◌++◌, Bytes, ok,
  length, length-append, arith,
}
use media_api.Soundkit.{Pipeline, sent, Receive, received, finished}
use media_api.Fixtures.{Clip, clips, mono_clip, plain_options}
use media_api.Pool.Worker
use media_api.Pool.Worker.{Job, new_job, process_job, has_ended, took, works, sends}

-- A pipeline that turns each chunk into a clip of its bytes.
abbrev pop : List Bytes → Receive Clip (List Bytes)
pop [] = finished []
pop (chunk ∷ chunks) = received (ok (record mono_clip { bytes = chunk })) chunks

abbrev pub copying : Pipeline clips
copying = record {
  Handle = List Bytes;
  spawn_with_options = λ _. [];
  send = λ h chunk. elim chunk [ [] ↦ sent h | b ∷ bs ↦ sent (h ++ (b ∷ bs) ∷ []) ];
  try_recv = pop;
  recv = pop;
}

-- A pipeline that never runs out of results.
abbrev pub flood : Pipeline clips
flood = record {
  Handle = ℕ;
  spawn_with_options = λ _. 0;
  send = λ h chunk. sent h;
  try_recv = λ h. received (ok mono_clip) h;
  recv = λ h. received (ok mono_clip) h;
}

abbrev pub chunk : Bytes
chunk = 4 ∷ []

-- So many steps of the thread, and so many chunks of a client.
abbrev worked : ℕ → Job flood → Job flood
worked zero j = j
worked (suc n) j = process_job flood (worked n j)

abbrev pub fed : ℕ → Job flood → Job flood
fed zero j = j
fed (suc n) j =
    let i = fed n j in
    record i { input = i.input ++ chunk ∷ []; was_sent = i.was_sent ++ chunk ∷ [] }

worked-Reach :
    (n : ℕ) (j : Job flood)
    → Worker.Reach flood plain_options j
    → Worker.Reach flood plain_options (worked n j)
worked-Reach zero j r = r
worked-Reach (suc n) j r = Worker.next (worked-Reach n j r) works

-- What sending leaves as it is.
fed-same :
    (n : ℕ) (j : Job flood)
    → ((fed n j).client ≡ j.client)
      × ((fed n j).worker ≡ j.worker)
      × (length (fed n j).input ≡ length j.input + n)
fed-same zero j = (refl, refl, omega arith)
fed-same (suc n) j =
    let (c, w, l) = fed-same n j in
    (c, w, omega (arith, l, length-append (fed n j).input (chunk ∷ [])))

send-took :
    (j : Job flood)
    → has_ended flood j.worker.pc ≡ false
    → length j.input < 32
    → Worker.send flood chunk j
      ≡ took (record j { input = j.input ++ chunk ∷ []; was_sent = j.was_sent ++ chunk ∷ [] })
unfolding Worker.send
send-took j on room = ground arith

pub fed-Reach :
    (n : ℕ) (j : Job flood)
    → j.client ≡ true
    → has_ended flood j.worker.pc ≡ false
    → length j.input + n ≤ 32
    → Worker.Reach flood plain_options j
    → Worker.Reach flood plain_options (fed n j)
fed-Reach zero j there on room r = r
fed-Reach (suc n) j there on room r =
    let (c, w, l) = fed-same n j in
    Worker.next (fed-Reach n j there on (omega arith) r) (
      sends chunk (c ∙ there)
        (send-took (fed n j) (ap (λ x. has_ended flood x.pc) w ∙ on) (omega (arith, l))))

-- The thread holds a result that the full channel has no room for.
abbrev pub flooded : Job flood
flooded = worked 67 (fed 1 (new_job flood plain_options))

pub flooded-Reach : Worker.Reach flood plain_options flooded
unfolding new_job
flooded-Reach =
    worked-Reach 67 (fed 1 (new_job flood plain_options))
      (fed-Reach 1 (new_job flood plain_options) refl refl (omega arith) Worker.here)
