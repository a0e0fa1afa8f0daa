-- ===== src/Effects.antt =====
-- Stateful steps that may fail, as the protocol handlers are written: a step takes a state and
-- returns a value with a state, or fails with a fault and the state in which it failed.
use media_api.Base.{◌≡◌, refl, Bool, true, false, if◌then◌else◌}

pub data Run {ℓ} (S E : Type 0) (A : Type ℓ) : Type ℓ where
  ret : A → S → Run S E A
  fail : E → S → Run S E A

infixl 5 ◌>>=◌ ◌>>◌
abbrev pub ◌>>=◌ {ℓ κ} :
    {S E : Type 0} {A : Type ℓ} {B : Type κ} → (S → Run S E A) → (A → S → Run S E B) → S → Run S E B
◌>>=◌ m f s = elim (m s) [ ret x s' ↦ f x s' | fail e s' ↦ fail e s' ]

abbrev pub ◌>>◌ {ℓ} :
    {S E : Type 0} {B : Type ℓ} → (S → Run S E (Unit {0})) → (S → Run S E B) → S → Run S E B
m >> k = m >>= λ _. k

-- Postconditions: `Q` of what a step returns, `F` of how it fails.
module _ {S E : Type 0} (F : E → S → Type 0) where
  abbrev pub Ensures {ℓ} : {A : Type ℓ} → (A → S → Type 0) → Run S E A → Type 0
  Ensures Q (ret x s) = Q x s
  Ensures Q (fail e s) = F e s

  pub Ensures-bind {ℓ κ} :
      {A : Type ℓ} {B : Type κ} (Q : A → S → Type 0) (R : B → S → Type 0) (r : Run S E A)
      (f : A → S → Run S E B)
      → Ensures Q r
      → ((x : A) (s : S) → Q x s → Ensures R (f x s))
      → Ensures R (elim r [ ret x s' ↦ f x s' | fail e s' ↦ fail e s' ])
  Ensures-bind Q R (ret x s) f h k = k x s h
  Ensures-bind Q R (fail e s) f h k = h

  pub Ensures-mono {ℓ} :
      {A : Type ℓ} (Q R : A → S → Type 0) (r : Run S E A)
      → Ensures Q r
      → ((x : A) (s : S) → Q x s → R x s)
      → Ensures R r
  Ensures-mono Q R (ret x s) h k = k x s h
  Ensures-mono Q R (fail e s) h k = h

  -- Both branches of a test.
  pub if-Ensures {ℓ} :
      {B : Type ℓ} (R : B → S → Type 0) (b : Bool) (x y : S → Run S E B) (s : S)
      → Ensures R (x s)
      → Ensures R (y s)
      → Ensures R ((if b then x else y) s)
  if-Ensures R true x y s h k = h
  if-Ensures R false x y s h k = k

  -- The same, where the test chooses between two outcomes.
  pub if-Ensures_run {ℓ} :
      {B : Type ℓ} (R : B → S → Type 0) (b : Bool) (x y : Run S E B)
      → Ensures R x
      → Ensures R y
      → Ensures R (if b then x else y)
  if-Ensures_run R true x y h k = h
  if-Ensures_run R false x y h k = k

  -- The same for a step, where a branch may use the outcome of its test.
  pub if-Ensures_split {ℓ} :
      {B : Type ℓ} (R : B → S → Type 0) (b : Bool) (x y : S → Run S E B) (s : S)
      → (b ≡ true → Ensures R (x s))
      → (b ≡ false → Ensures R (y s))
      → Ensures R ((if b then x else y) s)
  if-Ensures_split R true x y s h k = h refl
  if-Ensures_split R false x y s h k = k refl
