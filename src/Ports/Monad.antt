-- ===== src/Ports/Monad.antt =====
-- Code that runs on a store, in the style of the use cases: each step returns, or the rest is left
-- out and its error is returned.
use clawvival.Base.{Bool, true, false, if◌then◌else◌, ◌≡◌, refl, ◌⊎◌, inl, inr, ap, sym, ◌∙◌}
use clawvival.Ports.{Error, Result, returned, raised}

abbrev pub Tx : Type 0 → Type 0 → Type 0
Tx S A = S → Result (A × S)

pub Result-cases :
    {A : Type 0} (r : Result A) → ((a : A) × (r ≡ returned a)) ⊎ ((e : Error) × (r ≡ raised e))
Result-cases (returned a) = inl (a, refl)
Result-cases (raised e) = inr (e, refl)

-- Where two checks stand before a value and it is returned, both have passed.
pub both_passed :
    {A : Type 0} (e e' : Error) (bad worse : Bool) {c a : A}
    → (if bad then raised e else if worse then raised e' else returned c) ≡ returned a
    → (bad ≡ false) × (worse ≡ false) × (c ≡ a)
both_passed e e' true worse h = absurd (cc h)
both_passed e e' false true h = absurd (cc h)
both_passed e e' false false h = (refl, refl, cc h)

module _ {S : Type 0} where
  abbrev go_on : {A B : Type 0} → (A → Tx S B) → Result (A × S) → Result (B × S)
  go_on next (raised e) = raised e
  go_on next (returned (a, s)) = next a s

  infixl 10 ◌>>=◌ ◌>>◌
  abbrev pub ◌>>=◌ : {A B : Type 0} → Tx S A → (A → Tx S B) → Tx S B
  ◌>>=◌ first next s = go_on next (first s)

  abbrev pub ◌>>◌ : {A B : Type 0} → Tx S A → Tx S B → Tx S B
  first >> next = first >>= (λ _. next)

  abbrev pub give : {A : Type 0} → A → Tx S A
  give a s = returned (a, s)

  abbrev pub fail : {A : Type 0} → Error → Tx S A
  fail e s = raised e

  abbrev beside : {A : Type 0} → S → Result A → Result (A × S)
  beside s (raised e) = raised e
  beside s (returned a) = returned (a, s)

  -- A step that does not touch the store, a read, and a write.
  abbrev pub pure_step : {A : Type 0} → Result A → Tx S A
  pure_step r s = beside s r

  abbrev pub reads : {A : Type 0} → (S → Result A) → Tx S A
  reads get s = beside s (get s)

  abbrev written : Result S → Result (Unit {0} × S)
  written (raised e) = raised e
  written (returned s) = returned (tt, s)

  abbrev pub writes : (S → Result S) → Tx S (Unit {0})
  writes put s = written (put s)

  abbrev pub skip : Tx S (Unit {0})
  skip s = returned (tt, s)

  -- Where the whole returns, its first step has returned and the rest after it.
  pub >>=-returned :
      {A B : Type 0} (m : Tx S A) (next : A → Tx S B) (s : S) {b : B} {s' : S}
      → (m >>= next) s ≡ returned (b, s')
      → (a : A) × (t : S) × (m s ≡ returned (a, t)) × (next a t ≡ returned (b, s'))
  >>=-returned m next s h = elim (Result-cases (m s)) [
    | inl ((a, t), e) ↦ (a, t, e, sym (ap (go_on next) e) ∙ h)
    | inr (e, fails) ↦ absurd (cc (sym (ap (go_on next) fails) ∙ h))
  ]

  pub reads-returned :
      {A : Type 0} (get : S → Result A) (s : S) {a : A} {s' : S}
      → reads get s ≡ returned (a, s')
      → (get s ≡ returned a) × (s' ≡ s)
  reads-returned get s h = elim (Result-cases (get s)) [
    | inl (a, e) ↦ (cc (e, sym (ap (beside s) e) ∙ h), cc (sym (ap (beside s) e) ∙ h))
    | inr (e, fails) ↦ absurd (cc (sym (ap (beside s) fails) ∙ h))
  ]

  pub pure-returned :
      {A : Type 0} (r : Result A) (s : S) {a : A} {s' : S}
      → pure_step r s ≡ returned (a, s')
      → (r ≡ returned a) × (s' ≡ s)
  pure-returned (returned b) s h = (cc h, cc h)
  pure-returned (raised e) s h = absurd (cc h)

  pub writes-returned :
      (put : S → Result S) (s : S) {u : Unit {0}} {s' : S}
      → writes put s ≡ returned (u, s')
      → put s ≡ returned s'
  writes-returned put s h = elim (Result-cases (put s)) [
    | inl (t, e) ↦ e ∙ ap returned (cc (sym (ap written e) ∙ h))
    | inr (e, fails) ↦ absurd (cc (sym (ap written fails) ∙ h))
  ]
