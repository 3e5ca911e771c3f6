-- ===== src/Base/Store.antt =====
-- Code that uses a store: it changes the store and returns, or fails with an error.
use mathlib.Core.Path.{◌≡◌, ap, sym, ◌∙◌}
use mathlib.Core.Logic.{inl, inr}
use clawvival.Base.Tests.{Option-cases}
use mathlib.Core.Option.{Option, none, some}

abbrev pub Stored : Type 0 → Type 0 → Type 0
Stored S A = S → Option (A × S)

abbrev andthen : {S A B : Type 0} → (A → Stored S B) → Option (A × S) → Option (B × S)
andthen f none = none
andthen f (some (a, s)) = f a s

infixl 10 ◌>>=◌ ◌>>◌
abbrev pub ◌>>=◌ : {S A B : Type 0} → Stored S A → (A → Stored S B) → Stored S B
◌>>=◌ m f s = andthen f (m s)

abbrev pub ◌>>◌ : {S A B : Type 0} → Stored S A → Stored S B → Stored S B
m >> n = m >>= (λ _. n)

abbrev pub return : {S A : Type 0} → A → Stored S A
return a s = some (a, s)

abbrev pub of_option : {S A : Type 0} → Option A → Stored S A
of_option none s = none
of_option (some a) s = some (a, s)

-- After the first part has returned, the rest runs.
pub bind-eq :
    {S A B : Type 0} (m : Stored S A) (f : A → Stored S B) (s s' : S) (a : A)
    → m s ≡ some (a, s')
    → (m >>= f) s ≡ f a s'
bind-eq m f s s' a e = ap (andthen f) e

-- Where the whole returns, the first part has returned and the rest after it.
pub bind-some :
    {S A B : Type 0} (m : Stored S A) (f : A → Stored S B) (s s' : S) (b : B)
    → (m >>= f) s ≡ some (b, s')
    → (a : A) × (t : S) × (m s ≡ some (a, t)) × (f a t ≡ some (b, s'))
bind-some m f s s' b h = elim (Option-cases (m s)) [
  | inl fails ↦ absurd (cc (sym (ap (andthen f) fails) ∙ h))
  | inr ((a, t), e) ↦ (a, t, e, sym (ap (andthen f) e) ∙ h)
]
