-- ===== src/Benchmark/Packets/Frames.antt =====
-- The frames that a track is cut into.
use media_api.Base.{
  ℕ, zero, suc, ◌*◌, ◌-◌, ◌≤◌, ◌<◌, ◌≡◌, ◌↔◌, ◌≢◌, ◌⊎◌, ◌/◌, refl, ap, ◌∙◌, List, [], ◌∷◌, ◌++◌,
  Bytes, Result, ok, err, take, drop, length, length-append, length-drop, length-take,
  length-replicate, replicate, ltb, All, arith, Bool-cases, inl, inr,
}
use media_api.Base.Integers.{ℤ, pos}
use media_api.Benchmark.Packets.{
  Opus, Failure, panicked, chunks, padded, on_encoded, encode_chunks, encode_with, frame_size,
}

no_samples :
    (channels sample_rate : ℕ)
    → (frame_size sample_rate * channels ≡ 0) ↔ ((channels ≡ 0) ⊎ (sample_rate < 1000))
no_samples zero sample_rate = (λ _. inl refl, λ _. omega arith)
no_samples (suc channels) sample_rate =
    let positive : 0 < sample_rate / 1000 → 0 < sample_rate / 1000 * 20 * suc channels =
      λ h. product (sample_rate / 1000) h in
    elim (Bool-cases (ltb sample_rate 1000)) [
      | inl few ↦
          let none : sample_rate / 1000 ≡ 0 = ground arith in
          (λ _. inr (ground arith), λ _. rw none (omega arith))
      | inr many ↦
          let some : 0 < sample_rate / 1000 = ground arith in
          let nonzero = positive some in
          (λ e. absurd (omega (arith, e, nonzero)), λ h. absurd (ground arith))
    ]
  where
    product : (k : ℕ) → 0 < k → 0 < k * 20 * suc channels
    product k h = grind arith

module _ (o : Opus) where
  take-drop : (n : ℕ) (xs : List ℤ) → take n xs ++ drop n xs ≡ xs
  take-drop zero xs = refl
  take-drop (suc n) [] = refl
  take-drop (suc n) (x ∷ xs) = ap (λ t. x ∷ t) (take-drop n xs)

  abbrev pub concat : List (List ℤ) → List ℤ
  concat [] = []
  concat (c ∷ cs) = c ++ concat cs

  abbrev pub IsWhole : ℕ → List ℤ → Type 0
  IsWhole n c = (0 < length c) × (length c ≤ n) × (length (padded o n c) ≡ n)

  first-IsWhole : (n : ℕ) (x : ℤ) (xs : List ℤ) → 0 < n → IsWhole n (take n (x ∷ xs))
  first-IsWhole n x xs nonzero =
      let c = take n (x ∷ xs) in
      let short : (0 < length c) × (length c ≤ n) = ground (arith, length-take {0} n (x ∷ xs)) in
      (
        short.0,
        short.1,
        omega (
          arith,
          length-append {0} c (replicate (n - length c) (pos 0)),
          length-replicate {0} (n - length c) (pos 0),
        ),
      )

  -- For a positive frame size, the chunks of a track put together are the track; each holds at least
  -- one sample and at most the frame size, and is padded to exactly that size.
  pub chunks_cover :
      (f n : ℕ) (pcm : List ℤ)
      → 0 < n
      → length pcm < f
      → (concat (chunks o f n pcm) ≡ pcm) × All (IsWhole n) (chunks o f n pcm)
  unfolding chunks
  chunks_cover zero n pcm nonzero h = absurd (omega arith)
  chunks_cover (suc f) n [] nonzero h = (refl, tt)
  chunks_cover (suc f) n (x ∷ xs) nonzero h =
      let (whole, each) =
        chunks_cover f n (drop n (x ∷ xs)) nonzero (omega (arith, length-drop {0} n (x ∷ xs))) in
      (
        ap (λ t. take n (x ∷ xs) ++ t) whole ∙ take-drop n (x ∷ xs),
        (first-IsWhole n x xs nonzero, each),
      )

  on_encoded-quiet :
      (message : Bytes → Bytes) (next : o.Encoder → Bytes → Result Bytes Failure) (packets : Bytes)
      (r : Result (Bytes × o.Encoder) Bytes)
      → ((e : o.Encoder) (packets : Bytes) → next e packets ≢ err panicked)
      → on_encoded o message next packets r ≢ err panicked
  unfolding on_encoded
  on_encoded-quiet message next packets (err x) k = λ h. cc
  on_encoded-quiet message next packets (ok ([], e)) k = k e packets
  on_encoded-quiet message next packets (ok (b ∷ bs, e)) k = k e _

  encode_chunks-quiet :
      (message : Bytes → Bytes) (n : ℕ) (cs : List (List ℤ)) (e : o.Encoder) (packets : Bytes)
      → encode_chunks o message n cs e packets ≢ err panicked
  unfolding encode_chunks
  encode_chunks-quiet message n [] e packets = λ h. cc
  encode_chunks-quiet message n (c ∷ cs) e packets =
      on_encoded-quiet message _ packets (o.encode e (padded o n c))
        (encode_chunks-quiet message n cs)

  -- With an encoder that is set up, encoding panics exactly when a frame has no samples: with no
  -- channels, or a sample rate below 1000, for which the benchmark computes a frame size of 0.
  pub encode_with_panics_iff :
      (message : Bytes → Bytes) (e : o.Encoder) (channels sample_rate : ℕ) (pcm : List ℤ)
      → (encode_with o message e channels (frame_size sample_rate) pcm ≡ err panicked)
        ↔ ((channels ≡ 0) ⊎ (sample_rate < 1000))
  unfolding encode_with
  encode_with_panics_iff message e channels sample_rate pcm =
      let n = frame_size sample_rate * channels in
      let loop = encode_chunks-quiet message n (chunks o (suc (length pcm)) n pcm) e [] in
      ground (arith, no_samples channels sample_rate, loop)
