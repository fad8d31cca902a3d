-- ===== src/Captcha/Draw.antt =====
-- The renderer's control flow: a computation that reads a source of random numbers, and may panic.
use captchapi.Prelude.{
  ◌≡◌, refl, Option, none, some, Bool, true, false, if◌then◌else◌, ℕ, ◌-◌, leb, ◌==◌, ◌/◌,
}

abbrev pub Draw : Type 0 → Type 0 → Type 0
Draw S A = S → Option (A × S)

module _ {S A : Type 0} where
  abbrev pub pure : A → Draw S A
  pure a s = some (a, s)

  -- A call that cannot panic.
  abbrev pub lift : (S → A × S) → Draw S A
  lift m s = some (m s)

  abbrev pub panic : Draw S A
  panic s = none

module _ {S A : Type 0} where
  -- `if`, of computations: a conditional that the rules of proof are stated about.
  infix 1 when◌then◌else◌
  unfoldable pub when◌then◌else◌ : Bool → Draw S A → Draw S A → Draw S A
  when true then m else n = m
  when false then m else n = n

module _ {S : Type 0} where
  -- Unsigned arithmetic that panics on an underflow, or on a division by zero.
  abbrev pub checked_sub : ℕ → ℕ → Draw S ℕ
  checked_sub a b = when leb b a then pure (a - b) else panic

  abbrev pub checked_div : ℕ → ℕ → Draw S ℕ
  checked_div a b = when b == 0 then panic else pure (a / b)

module _ {S A B : Type 0} where
  continue : Option (A × S) → (A → Draw S B) → Option (B × S)
  continue none f = none
  continue (some (a, s)) f = f a s

  infixl 10 ◌>>=◌ ◌>>◌
  unfoldable pub ◌>>=◌ : Draw S A → (A → Draw S B) → Draw S B
  unfolding continue
  ◌>>=◌ m f s = continue (m s) f

  abbrev pub ◌>>◌ : Draw S A → Draw S B → Draw S B
  m >> n = m >>= λ _. n

module _ {S A : Type 0} where
  -- From every state the computation returns, with a result that has the property.
  pub record Runs (m : Draw S A) (P : A → Type 0) : Type 0 where
    pub at : (s : S) → (a : A) × (t : S) × (m s ≡ some (a, t)) × P a

  pub pure-Runs : {P : A → Type 0} (a : A) → P a → Runs (pure a) P
  pure-Runs a h = record { at = λ s. (a, s, refl, h) }

  pub lift-Runs : {P : A → Type 0} (m : S → A × S) → ((s : S) → P (m s).0) → Runs (lift m) P
  lift-Runs m h = record { at = λ s. ((m s).0, (m s).1, refl, h s) }

module _ {S A : Type 0} where
  pub weaken-Runs : {P Q : A → Type 0} {m : Draw S A} → Runs m P → ((a : A) → P a → Q a) → Runs m Q
  weaken-Runs h k = record { at = λ s. let (a, t, e, p) = h.at s in (a, t, e, k a p) }

module _ {S A B : Type 0} where
  pub bind-Runs :
      {P : A → Type 0} {Q : B → Type 0} {m : Draw S A} {f : A → Draw S B}
      → Runs m P
      → ((a : A) → P a → Runs (f a) Q)
      → Runs (m >>= f) Q
  unfolding ◌>>=◌ continue
  bind-Runs hm hf = record {
    at = λ s. let (a, t, e, p) = hm.at s in let (b, u, e', q) = (hf a p).at t in (b, u, rw e e', q);
  }

module _ {S A : Type 0} where
  pub when-Runs :
      {P : A → Type 0} {m n : Draw S A} (b : Bool)
      → (b ≡ true → Runs m P)
      → (b ≡ false → Runs n P)
      → Runs (when b then m else n) P
  unfolding when◌then◌else◌
  when-Runs true h k = h refl
  when-Runs false h k = k refl

module _ {S A : Type 0} where
  -- The state in which a computation leaves the source, if it returns.
  abbrev pub source : Option (A × S) → Option S
  source none = none
  source (some (a, t)) = some t

module _ {S A B C : Type 0} where
  continue-same :
      (m : Option (A × S)) (f : A → Draw S B) (g : A → Draw S C)
      → ((a : A) (s : S) → source (f a s) ≡ source (g a s))
      → source (continue m f) ≡ source (continue m g)
  unfolding continue
  continue-same none f g h = refl
  continue-same (some (a, t)) f g h = h a t

  -- Two computations that begin alike leave the source alike, if they do after each answer.
  pub bind-same :
      (m : Draw S A) (f : A → Draw S B) (g : A → Draw S C)
      → ((a : A) (s : S) → source (f a s) ≡ source (g a s))
      → (s : S) → source ((m >>= f) s) ≡ source ((m >>= g) s)
  unfolding ◌>>=◌
  bind-same m f g h s = continue-same (m s) f g h

module _ {S A A' B C : Type 0} where
  continue-source :
      (m : Option (A × S)) (n : Option (A' × S)) (f : A → Draw S B) (g : A' → Draw S C)
      → source m ≡ source n
      → ((a : A) (a' : A') (u : S) → source (f a u) ≡ source (g a' u))
      → source (continue m f) ≡ source (continue n g)
  unfolding continue
  continue-source none none f g h k = refl
  continue-source none (some (a', u)) f g h k = cc
  continue-source (some (a, t)) none f g h k = cc
  continue-source (some (a, t)) (some (a', u)) f g h k = let e : t ≡ u = cc in rw e (k a a' u)

  -- Two computations that leave the source alike, and go on in ways that do.
  pub bind-source :
      (m : Draw S A) (n : Draw S A') (f : A → Draw S B) (g : A' → Draw S C) (s t : S)
      → source (m s) ≡ source (n t)
      → ((a : A) (a' : A') (u : S) → source (f a u) ≡ source (g a' u))
      → source ((m >>= f) s) ≡ source ((n >>= g) t)
  unfolding ◌>>=◌
  bind-source m n f g s t h k = continue-source (m s) (n t) f g h k

module _ {S A B : Type 0} where
  pub when-source :
      (b : Bool) (m n : Draw S A) (m' n' : Draw S B) (s : S)
      → source (m s) ≡ source (m' s)
      → source (n s) ≡ source (n' s)
      → source ((when b then m else n) s) ≡ source ((when b then m' else n') s)
  unfolding when◌then◌else◌
  when-source true m n m' n' s h k = h
  when-source false m n m' n' s h k = k
