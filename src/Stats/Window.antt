-- ===== src/Stats/Window.antt =====
-- The sample queue is a window on the history of samples.
use media_api.Base.{
  ℕ, zero, suc, ◌+◌, ◌-◌, ◌≤◌, ◌≡◌, refl, sym, ap, ◌∙◌, false, List, [], ◌∷◌, ◌++◌, append_assoc,
  append-nil, length, drop, ltb, arith, length-append, length-drop, Bool-cases, inl, inr,
}
use media_api.Stats.{Sample, Stats, trim, record_sample}

pub trim-drop : (most : ℕ) (xs : List Sample) → trim most xs ≡ drop (length xs - most) xs
unfolding trim
trim-drop most [] = ground arith
trim-drop most (x ∷ xs) = elim (Bool-cases (ltb most (suc (length xs)))) [
  | inl longer ↦
      let e : suc (length xs) - most ≡ suc (length xs - most) = ground arith in
      rw (longer, e) (trim-drop most xs)
  | inr fits ↦ let e : suc (length xs) - most ≡ 0 = ground arith in rw (fits, e) refl
]

pub length-trim-le : (most : ℕ) (xs : List Sample) → length (trim most xs) ≤ most
length-trim-le most xs =
    omega (arith, ap length (trim-drop most xs), length-drop {0} (length xs - most) xs)

-- Recording a list of samples, oldest first.
unfoldable pub record_all : List Sample → Stats → Stats
record_all [] s = s
record_all (x ∷ xs) s = record_all xs (record_sample x.timestamp x.value s)

drop-concat : (n : ℕ) (xs ys : List Sample) → n ≤ length xs → drop n (xs ++ ys) ≡ drop n xs ++ ys
drop-concat zero xs ys h = refl
drop-concat (suc n) [] ys h = absurd (omega arith)
drop-concat (suc n) (x ∷ xs) ys h = drop-concat n xs ys (omega arith)

drop-nil : (n : ℕ) → ◌≡◌ {A = List Sample} (drop n []) []
drop-nil zero = refl
drop-nil (suc n) = refl

drop-drop : (m n : ℕ) (xs : List Sample) → drop m (drop n xs) ≡ drop (n + m) xs
drop-drop m zero xs = rw add-comm_zero
  where
    add-comm_zero : 0 + m ≡ m
    add-comm_zero = omega arith
drop-drop m (suc n) [] = drop-nil m ∙ sym (drop-nil (suc n + m))
drop-drop m (suc n) (x ∷ xs) =
    let e : suc n + m ≡ suc (n + m) = omega arith in rw e (drop-drop m n xs)

-- Trimming after each sample or once at the end is the same.
trim-append-trim :
    (most : ℕ) (xs ys : List Sample) → trim most (trim most xs ++ ys) ≡ trim most (xs ++ ys)
trim-append-trim most xs ys =
    let k = length xs - most in
    let inner : trim most xs ++ ys ≡ drop k (xs ++ ys) =
      ap (λ t. t ++ ys) (trim-drop most xs) ∙ sym (drop-concat k xs ys (omega arith)) in
    let n : length (drop k (xs ++ ys)) ≡ length (xs ++ ys) - k = length-drop {0} k (xs ++ ys) in
    let total : k + (length (xs ++ ys) - k - most) ≡ length (xs ++ ys) - most =
      omega (arith, length-append {0} xs ys) in
    rw (inner, trim-drop most (drop k (xs ++ ys)), n, drop-drop, total)
      (sym (trim-drop most (xs ++ ys)))

record_sample-live :
    (now value : ℕ) (s : Stats)
    → s.poisoned ≡ false
    → record_sample now value s ≡ record s {
      samples = trim s.max_samples (s.samples ++ (record { timestamp = now; value = value }) ∷ []);
    }
unfolding record_sample
record_sample-live now value s live = rw live

record_all-history :
    (xs history : List Sample) (s : Stats)
    → s.poisoned ≡ false
    → s.samples ≡ trim s.max_samples history
    → (record_all xs s).samples ≡ trim s.max_samples (history ++ xs)
unfolding record_all
record_all-history [] history s live e = e ∙ ap (trim s.max_samples) (sym (append-nil history))
record_all-history (x ∷ xs) history s live e =
    let next = record s { samples = trim s.max_samples (s.samples ++ x ∷ []) } in
    let kept : next.samples ≡ trim s.max_samples (history ++ x ∷ []) =
      ap (λ t. trim s.max_samples (t ++ x ∷ [])) e
      ∙ trim-append-trim s.max_samples history (x ∷ []) in
    ap (λ (t : Stats). (record_all xs t).samples) (record_sample-live x.timestamp x.value s live)
    ∙ record_all-history xs (history ++ x ∷ []) next live kept
    ∙ ap (trim s.max_samples) (append_assoc history (x ∷ []) xs)

-- As long as no thread panics with the lock, the queue holds the last `max_samples` samples that
-- were ever recorded, in their order, and nothing else.
pub record_all-samples :
    (xs : List Sample) (s : Stats)
    → s.poisoned ≡ false
    → s.samples ≡ []
    → (record_all xs s).samples ≡ drop (length xs - s.max_samples) xs
record_all-samples xs s live e =
    record_all-history xs [] s live (e ∙ sym (unfold trim in refl)) ∙ trim-drop s.max_samples xs
