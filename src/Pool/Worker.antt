-- ===== src/Pool/Worker.antt =====
-- One decode job of src/pool.rs: the thread that runs `process_job` and the `PooledDecoder` that the
-- client holds, joined by two channels of 32 places. The thread's step is one round of one of
-- its loops; a step that would wait changes nothing.
pub mod Chunks
pub mod Flow
pub mod Accounts
pub mod Completion
pub mod Final
pub mod Refinement
pub mod Deadlock
use media_api.Base.{
  ℕ, suc, ◌+◌, ◌≡◌, Bool, true, false, ◌&&◌, Option, none, some, List, [], ◌∷◌, ◌++◌, Bytes, Result,
  ok, err, length, ltb, leb, if◌then◌else◌, codes,
}
use media_api.Soundkit.{
  DecodeOptions, AudioOps, Poll, item, pending, closed, Receive, received, finished, Send, sent,
  refused, Pipeline,
}

abbrev pub channel_size : ℕ
channel_size = 32

module _ {a : AudioOps} (k : Pipeline a) where
  -- What the channel of results carries.
  abbrev pub Decoded : Type 0
  Decoded = Result a.Audio Bytes

  -- Where `process_job` stands.
  pub data Pc : Type 0 where
    -- the head of the outer loop
    reading : Pc
    -- `while pipeline.send(chunk.clone()).is_err()`
    sending : Bytes → Pc
    -- `while let Some(result) = pipeline.try_recv()`
    draining : Pc
    -- `job.output_tx.send(mapped)`, in that loop or in the last one
    delivering : Bool → Decoded → Pc
    -- the final drain by `pipeline.recv()`
    finishing : Pc
    -- after the loops
    done : Pc
    -- returned early, as the receiver is gone
    aborted : Pc

  -- The local variables of `process_job`.
  pub record Local : Type 0 where
    pub pc : Pc
    pub pipeline : k.Handle
    pub input_done : Bool
    pub input_bytes : ℕ
    pub output_bytes : ℕ
    pub output_sample_rate : ℕ
    pub output_channels : ℕ
    pub codec : Option a.AudioType

  -- The two channels, oldest first, whether the client still holds the decoder, the thread, and four
  -- histories: the chunks that the client sent, the chunks that the pipeline took, the results that
  -- came out of it, and the results that the client received.
  pub record Job : Type 0 where
    pub input : List Bytes
    pub output : List Decoded
    pub client : Bool
    pub worker : Local
    pub was_sent : List Bytes
    pub was_taken : List Bytes
    pub was_decoded : List Decoded
    pub was_received : List Decoded

  -- The state behind `acquire`, once a thread has taken the job.
  unfoldable pub new_job : DecodeOptions → Job
  new_job options = record {
    input = [];
    output = [];
    client = true;
    worker = record {
      pc = reading;
      pipeline = k.spawn_with_options options;
      input_done = false;
      input_bytes = 0;
      output_bytes = 0;
      output_sample_rate = 0;
      output_channels = 0;
      codec = none;
    };
    was_sent = [];
    was_taken = [];
    was_decoded = [];
    was_received = [];
  }

  abbrev pub goto : Pc → Job → Job
  goto pc j = record j { worker = record j.worker { pc = pc } }

  -- `let _ = pipeline.send(…)`
  abbrev pub after_send : Send k.Handle → k.Handle
  after_send (sent h) = h
  after_send (refused e h) = h

  -- The end of the input, by an empty chunk or a dropped client.
  abbrev pub end_input : Job → Job
  end_input j = record j {
    worker = record j.worker {
      pc = draining;
      pipeline = after_send (k.send j.worker.pipeline []);
      input_done = true;
    };
  }

  -- The codec is detected from the first chunk of at least 12 bytes.
  abbrev pub detect : Option a.AudioType → Bytes → Option a.AudioType
  detect (some c) chunk = some c
  detect none chunk = if leb 12 (length chunk) then some (a.detect_audio chunk) else none

  abbrev pub start_chunk : Bytes → Job → Job
  start_chunk chunk j = record j {
    worker = record j.worker {
      pc = sending chunk;
      codec = detect j.worker.codec chunk;
      input_bytes = j.worker.input_bytes + length chunk;
    };
  }

  -- `job.input_rx.try_recv()`; a client that is gone leaves a closed channel.
  pub read_input : List Bytes → Job → Job
  read_input [] j = if j.client then goto draining j else end_input j
  read_input ([] ∷ rest) j = end_input (record j { input = rest })
  read_input ((b ∷ chunk) ∷ rest) j = start_chunk (b ∷ chunk) (record j { input = rest })

  -- A refused chunk is sent again: it is not dropped.
  pub on_push : Bytes → Job → Send k.Handle → Job
  on_push chunk j (sent h) = record j {
    worker = record j.worker { pc = draining; pipeline = h };
    was_taken = j.was_taken ++ chunk ∷ [];
  }
  on_push chunk j (refused e h) = record j { worker = record j.worker { pipeline = h } }

  -- The metrics that one result adds to.
  abbrev pub tally : Decoded → Local → Local
  tally (ok audio) w = record w {
    output_bytes = w.output_bytes + length (a.bytes audio);
    output_sample_rate = a.sampling_rate audio;
    output_channels = a.channel_count audio;
  }
  tally (err e) w = w

  abbrev pub take_result : Bool → Decoded → k.Handle → Job → Job
  take_result final r h j = record j {
    worker = record (tally r j.worker) { pc = delivering final r; pipeline = h };
    was_decoded = j.was_decoded ++ r ∷ [];
  }

  pub on_try_recv : Job → Receive a.Audio k.Handle → Job
  on_try_recv j (received r h) = take_result false r h j
  on_try_recv j (finished h) = record j {
    worker = record j.worker {
      pc = if j.worker.input_done then finishing else reading;
      pipeline = h;
    };
  }

  pub on_recv : Job → Receive a.Audio k.Handle → Job
  on_recv j (received r h) = take_result true r h j
  on_recv j (finished h) = record j { worker = record j.worker { pc = done; pipeline = h } }

  -- `send` on the bounded channel of results: it waits for room, and fails without a receiver.
  pub deliver : Bool → Decoded → Job → Job
  deliver final r j =
      if j.client
      then if ltb (length j.output) channel_size
        then record j {
          worker = record j.worker { pc = if final then finishing else draining };
          output = j.output ++ r ∷ [];
        }
        else j
      else goto aborted j

  -- One step of the thread.
  pub step_worker : Pc → Job → Job
  unfolding read_input on_push on_try_recv on_recv deliver
  step_worker reading j = if j.worker.input_done then goto draining j else read_input j.input j
  step_worker (sending chunk) j = on_push chunk j (k.send j.worker.pipeline chunk)
  step_worker draining j = on_try_recv j (k.try_recv j.worker.pipeline)
  step_worker (delivering final r) j = deliver final r j
  step_worker finishing j = on_recv j (k.recv j.worker.pipeline)
  step_worker done j = j
  step_worker aborted j = j

  unfoldable pub process_job : Job → Job
  unfolding step_worker
  process_job j = step_worker j.worker.pc j

  -- Whether the thread has let go of the channels.
  abbrev pub has_ended : Pc → Bool
  has_ended done = true
  has_ended aborted = true
  has_ended _ = false

  pub data ClientSend : Type 0 where
    took : Job → ClientSend
    gone : Bytes → ClientSend
    waits : ClientSend

  -- `PooledDecoder::send`
  unfoldable pub send : Bytes → Job → ClientSend
  send chunk j =
      if has_ended j.worker.pc
      then gone (codes "Decoder channel closed")
      else if ltb (length j.input) channel_size
      then took (record j { input = j.input ++ chunk ∷ []; was_sent = j.was_sent ++ chunk ∷ [] })
      else waits

  pub receive_from : List Decoded → Job → Poll a.Audio Job
  receive_from [] j = if has_ended j.worker.pc then closed j else pending j
  receive_from (r ∷ rest) j =
      item r (record j { output = rest; was_received = j.was_received ++ r ∷ [] })

  -- `PooledDecoder::try_recv`
  pub try_recv : Job → Poll a.Audio Job
  unfolding receive_from
  try_recv j = receive_from j.output j

  -- `PooledDecoder::recv`; `none` waits.
  pub recv : Job → Option (Receive a.Audio Job)
  unfolding receive_from
  recv j = elim (receive_from j.output j) [
    | item r j' ↦ some (received r j')
    | pending j' ↦ none
    | closed j' ↦ some (finished j')
  ]

  abbrev pub leave : Job → Job
  leave j = record j { client = false; output = [] }

  -- The drop of a `PooledDecoder`: an empty chunk, whose failure is ignored, and then both ends of the
  -- client go. `none` waits for room.
  pub on_drop : Job → ClientSend → Option Job
  on_drop j (took j') = some (leave j')
  on_drop j (gone e) = some (leave j)
  on_drop j waits = none

  pub drop_decoder : Job → Option Job
  unfolding on_drop
  drop_decoder j = on_drop j (send [] j)

  -- The interleavings of the thread and its client.
  pub data Step (j : Job) : Job → Type 0 where
    works : Step j (process_job j)
    sends : {j' : Job} (chunk : Bytes) → j.client ≡ true → send chunk j ≡ took j' → Step j j'
    receives : {j' : Job} (r : Decoded) → j.client ≡ true → try_recv j ≡ item r j' → Step j j'
    drops : {j' : Job} → j.client ≡ true → drop_decoder j ≡ some j' → Step j j'

  pub data Reach (options : DecodeOptions) : Job → Type 0 where
    here : Reach options (new_job options)
    next : {i j : Job} → Reach options i → Step i j → Reach options j
