-- ===== src/Base/Loops.antt =====
-- Loops that may raise, on fuel, and the rule that the fuel is enough.
use Prim.Native.Nat.{ℕ, zero, suc, ◌<◌}
use mathlib.Core.Path.{◌≡◌, refl}
use mathlib.Core.Bool.{Bool, true, false}
use native.Mathlib.Omega.{arith}
use tai_skeleton.Base.Tests.{if◌then◌else◌}
use tai_skeleton.Base.Results.{Exc, out_of_fuel, Result, ok, raise, ◌>>=◌}

-- What a round of a loop decides: to return, or to go on with a new state.
pub data Step {ℓ} (S R : Type ℓ) : Type ℓ where
  finished : R → Step S R
  next : S → Step S R

module _ {ℓ} {S R : Type ℓ} where
  abbrev pub continue_with : (S → Result R) → Step S R → Result R
  continue_with go (finished r) = ok r
  continue_with go (next s) = go s

  unfoldable pub loop : ℕ → (S → Result (Step S R)) → S → Result R
  loop zero body s = raise out_of_fuel
  loop (suc fuel) body s = body s >>= λ m. continue_with (loop fuel body) m

abbrev pub NotFuel : Exc → Type 0
NotFuel out_of_fuel = ⊥
NotFuel _ = Unit

-- An outcome whose value satisfies `Q`, and that is no want of fuel.
abbrev pub Ensures {ℓ} : {A : Type ℓ} → (A → Type 0) → Result A → Type 0
Ensures Q (ok a) = Q a
Ensures Q (raise e) = NotFuel e

pub Ensures->>= {ℓ κ} :
    {B : Type κ} {A : Type ℓ} (P : A → Type 0) (Q : B → Type 0) (m : Result A) (f : A → Result B)
    → Ensures P m
    → ((a : A) → P a → Ensures Q (f a))
    → Ensures Q (m >>= f)
Ensures->>= P Q (ok a) f h k = k a h
Ensures->>= P Q (raise e) f h k = h

pub Ensures-mono {ℓ} :
    {A : Type ℓ} (P Q : A → Type 0) (m : Result A)
    → Ensures P m
    → ((a : A) → P a → Q a)
    → Ensures Q m
Ensures-mono P Q (ok a) h k = k a h
Ensures-mono P Q (raise e) h k = h

pub Ensures-if {ℓ} :
    {A : Type ℓ} (Q : A → Type 0) (b : Bool) (m n : Result A)
    → (b ≡ true → Ensures Q m)
    → (b ≡ false → Ensures Q n)
    → Ensures Q (if b then m else n)
Ensures-if Q true m n h k = h refl
Ensures-if Q false m n h k = k refl

module _ {ℓ} {S R : Type ℓ} (P : S → Type 0) (Q : R → Type 0) (measure : S → ℕ) where
  -- one round keeps the invariant and lowers the measure, or returns what is wanted
  abbrev pub Round : S → Step S R → Type 0
  Round s (finished r) = Q r
  Round s (next s') = P s' × (measure s' < measure s)

  continue_with-Ensures :
      (s : S) (go : S → Result R) (m : Step S R)
      → Round s m
      → ((s' : S) → P s' → measure s' < measure s → Ensures Q (go s'))
      → Ensures Q (continue_with go m)
  continue_with-Ensures s go (finished r) k h = k
  continue_with-Ensures s go (next s') (p', less) h = h s' p' less

  pub loop-Ensures :
      (body : S → Result (Step S R))
      → ((s : S) → P s → Ensures (Round s) (body s))
      → (fuel : ℕ) (s : S) → measure s < fuel
      → P s
      → Ensures Q (loop fuel body s)
  unfolding loop
  loop-Ensures body round zero s h p = absurd (omega arith)
  loop-Ensures body round (suc fuel) s h p = Ensures->>= (Round s) Q (body s) _ (round s p) (λ m k.
      continue_with-Ensures s (loop fuel body) m k
        (λ s' p' less. loop-Ensures body round fuel s' (omega arith) p'))
