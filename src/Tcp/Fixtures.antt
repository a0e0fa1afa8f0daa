-- ===== src/Tcp/Fixtures.antt =====
-- A TCP client and its network, at which the theorems about the server are run.
use media_api.Base.{ℕ, List, [], ◌∷◌, Bytes, length, Result, ok, err, text_eq, ltb, codes}
use media_api.Tcp.Session.{Framing, eof}
use media_api.Tcp.Server.{Network, Traffic}

-- The tags as numbers, and a writer that takes 99 frames.
abbrev pub numbered : Framing
numbered = record {
  Tag = ℕ;
  dcod = 1;
  pcms = 2;
  done = 3;
  meta = 4;
  tag_matches = λ s t. text_eq (s ∷ []) (t ∷ []);
  accepts = λ written _. ltb (length written) 99;
}

-- A skipped frame, a session with two audio results, and one that is empty.
abbrev pub client_frames : List (ℕ × Bytes)
client_frames = (7, []) ∷ (1, 5 ∷ []) ∷ (1, 6 ∷ []) ∷ (3, []) ∷ (1, []) ∷ []

-- A peer that sends frames and closes.
abbrev pub client : List (ℕ × Bytes) → Traffic numbered
client frames = record {
  frames = frames;
  ending = eof;
  accepts = λ written _. ltb (length written) 99;
}

abbrev pub handshake : List (ℕ × Bytes) → Traffic numbered → Result (Traffic numbered) Bytes
handshake [] t = err (codes "no client hello")
handshake (frame ∷ frames) t = ok t

-- Streams are what their peers send; a handshake needs a peer that sends something.
abbrev pub peers : Network numbered
peers = record {
  Stream = Traffic numbered;
  TlsStream = Traffic numbered;
  TlsAcceptor = Bytes;
  accept = λ key t. handshake t.frames t;
  plain = λ t. t;
  tls = λ t. t;
}
