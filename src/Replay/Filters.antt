-- ===== src/Replay/Filters.antt =====
-- internal/app/replay/usecase.go: the limit and the filters as list operations.

use clawvival.Base.{
  ℕ, zero, suc, ◌≤◌, ◌≡◌, refl, sym, ap, arith, inl, inr, pos, leb_ℤ, length, Bool, true, false,
  Bool-cases, ◌&&◌, List, [], ◌∷◌,
}
use clawvival.Survival.Types.{DomainEvent}
use clawvival.Replay.{take, apply_limit, filter}

pub take-length : {A : Type 0} (n : ℕ) (xs : List A) → length xs ≤ n → take n xs ≡ xs
unfolding take
take-length zero [] h = refl
take-length zero (x ∷ xs) h = absurd (omega arith)
take-length (suc n) [] h = refl
take-length (suc n) (x ∷ xs) h = ap (λ rest. x ∷ rest) (take-length n xs (omega arith))

pub take-take : {A : Type 0} (n : ℕ) (xs : List A) → take n (take n xs) ≡ take n xs
unfolding take
take-take zero xs = refl
take-take (suc n) [] = refl
take-take (suc n) (x ∷ xs) = ap (λ rest. x ∷ rest) (take-take n xs)

pub above_zero : (n : ℕ) → leb_ℤ (pos (suc n)) (pos 0) ≡ false
above_zero n = ground arith

pub apply_limit_lem :
    (events : List DomainEvent) (n : ℕ) → apply_limit events (pos (suc n)) ≡ take (suc n) events
unfolding apply_limit
apply_limit_lem events n = elim (Bool-cases (leb_ℤ (pos (length events)) (pos (suc n)))) [
  | inl short ↦ rw (above_zero n, short) (sym (take-length (suc n) events (ground (arith, short))))
  | inr long ↦ rw (above_zero n, long) refl
]

pub filter-cong :
    (p q : DomainEvent → Bool) (events : List DomainEvent)
    → ((e : DomainEvent) → p e ≡ q e)
    → filter p events ≡ filter q events
unfolding filter
filter-cong p q [] h = refl
filter-cong p q (e ∷ events) h = rw (h e, filter-cong p q events h) refl

pub filter-all :
    (p : DomainEvent → Bool) (events : List DomainEvent)
    → ((e : DomainEvent) → p e ≡ true)
    → filter p events ≡ events
unfolding filter
filter-all p [] h = refl
filter-all p (e ∷ events) h = rw (h e, filter-all p events h) refl

pub filter-filter :
    (p q : DomainEvent → Bool) (events : List DomainEvent)
    → filter q (filter p events) ≡ filter (λ e. p e && q e) events
unfolding filter
filter-filter p q [] = refl
filter-filter p q (e ∷ events) = elim (Bool-cases (p e)) [
  | inl first ↦ elim (Bool-cases (q e)) [
    | inl both ↦ rw (first, both, filter-filter p q events) refl
    | inr fails ↦ rw (first, fails, filter-filter p q events) refl
  ]
  | inr fails ↦ rw (fails, filter-filter p q events) refl
]
