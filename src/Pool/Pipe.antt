-- ===== src/Pool/Pipe.antt =====
-- What a decode job promises, without its thread and its bounded channels: one queue of input before
-- the pipeline and one of results behind it, both first in, first out.
use media_api.Base.{◌≡◌, Bool, true, false, List, [], ◌∷◌, ◌++◌, Bytes, is_empty, if◌then◌else◌}
use media_api.Soundkit.{DecodeOptions, AudioOps, received, finished, sent, refused, Pipeline}
use media_api.Pool.Worker.{Decoded, after_send}

module _ {a : AudioOps} (k : Pipeline a) where
  -- The input that the pipeline has not taken, whether it knows of the end of the input, the results
  -- that the client has not received, whether the client is there, and its two histories.
  pub record Pipe : Type 0 where
    pub inbox : List Bytes
    pub handle : k.Handle
    pub ended : Bool
    pub outbox : List (Decoded k)
    pub client : Bool
    pub was_sent : List Bytes
    pub was_received : List (Decoded k)

  abbrev pub fresh : DecodeOptions → Pipe
  fresh options = record {
    inbox = [];
    handle = k.spawn_with_options options;
    ended = false;
    outbox = [];
    client = true;
    was_sent = [];
    was_received = [];
  }

  -- A result is kept as long as there is a client.
  abbrev pub keep : Decoded k → Pipe → List (Decoded k)
  keep r s = if s.client then s.outbox ++ r ∷ [] else []

  abbrev pub end_input : Pipe → Pipe
  end_input s = record s { handle = after_send k (k.send s.handle []); ended = true }

  pub data PipeStep (s : Pipe) : Pipe → Type 0 where
    -- the client sends a chunk
    submits :
        (chunk : Bytes)
        → s.client ≡ true
        → PipeStep s
            (record s { inbox = s.inbox ++ chunk ∷ []; was_sent = s.was_sent ++ chunk ∷ [] })
    -- the pipeline takes the oldest chunk, which is not empty, or refuses it for now
    takes :
        (chunk : Bytes) (rest : List Bytes) (h : k.Handle)
        → s.ended ≡ false
        → is_empty chunk ≡ false
        → s.inbox ≡ chunk ∷ rest
        → k.send s.handle chunk ≡ sent h
        → PipeStep s (record s { inbox = rest; handle = h })
    refuses :
        (chunk : Bytes) (rest : List Bytes) (e : Bytes) (h : k.Handle)
        → s.ended ≡ false
        → is_empty chunk ≡ false
        → s.inbox ≡ chunk ∷ rest
        → k.send s.handle chunk ≡ refused e h
        → PipeStep s (record s { handle = h })
    -- an empty chunk ends the input, and so does a client that is gone when its chunks are used up
    ends :
        (rest : List Bytes)
        → s.ended ≡ false
        → s.inbox ≡ [] ∷ rest
        → PipeStep s (record (end_input s) { inbox = rest })
    ends_alone : s.ended ≡ false → s.inbox ≡ [] → s.client ≡ false → PipeStep s (end_input s)
    -- the pipeline gives a result, or has none for now
    gives :
        (r : Decoded k) (h : k.Handle)
        → k.try_recv s.handle ≡ received r h
        → PipeStep s (record s { handle = h; outbox = keep r s })
    has_none :
        (h : k.Handle) → k.try_recv s.handle ≡ finished h → PipeStep s (record s { handle = h })
    -- it gives one of its last results, or has finished; only behind the end of the input
    gives_last :
        (r : Decoded k) (h : k.Handle)
        → s.ended ≡ true
        → k.recv s.handle ≡ received r h
        → PipeStep s (record s { handle = h; outbox = keep r s })
    finishes :
        (h : k.Handle)
        → s.ended ≡ true
        → k.recv s.handle ≡ finished h
        → PipeStep s (record s { handle = h })
    -- the client receives the oldest result
    receives :
        (r : Decoded k) (rest : List (Decoded k))
        → s.outbox ≡ r ∷ rest
        → PipeStep s (record s { outbox = rest; was_received = s.was_received ++ r ∷ [] })
    -- the client goes, with a last empty chunk if the job still runs
    leaves : s.client ≡ true → PipeStep s (record s { client = false; outbox = [] })
    leaves_with_end :
        s.client ≡ true
        → PipeStep s (record s {
          client = false;
          outbox = [];
          inbox = s.inbox ++ [] ∷ [];
          was_sent = s.was_sent ++ [] ∷ [];
        })

  pub data PipeReach (options : DecodeOptions) : Pipe → Type 0 where
    here : PipeReach options (fresh options)
    next : {s t : Pipe} → PipeReach options s → PipeStep s t → PipeReach options t
