-- ===== src/Action/Retreat/Chosen.antt =====
-- internal/app/action/action_retreat.go: the loop of `bestRetreatStep` over its candidates.

use clawvival.Base.{
  ◌≡◌, refl, ap, ◌⊎◌, inl, inr, arith, true, false, Option, none, some, List, [], ◌∷◌, All, Has,
  Bool-cases,
}
use clawvival.Action.Retreat.{Step, is_better, consider, choose}

-- A candidate is not better than a step: there is none, or it is neither farther from the threat nor
-- as far and less risky.
abbrev pub NotBetter : Step → Option Step → Type 0
NotBetter s none = Unit
NotBetter s (some c) = is_better c s ≡ false

-- What the choice says of the candidates.
abbrev pub IsChosen : List (Option Step) → Option Step → Type 0
IsChosen cs none = All (λ (c : Option Step). c ≡ none) cs
IsChosen cs (some s) = Has (some s) cs × All (NotBetter s) cs

worse_than_replaced :
    (b c s : Step) → is_better c b ≡ true → is_better c s ≡ false → is_better b s ≡ false
worse_than_replaced b c s h k = ground arith

worse_than_kept :
    (b c s : Step) → is_better c b ≡ false → is_better b s ≡ false → is_better c s ≡ false
worse_than_kept b c s h k = ground arith

not_better_self : (b : Step) → is_better b b ≡ false
not_better_self b = ground arith

-- The choice from a step and the candidates that follow.
record Chosen (b : Step) (cs : List (Option Step)) (o : Option Step) : Type 0 where
  step : Step
  chosen : o ≡ some step
  source : (b ≡ step) ⊎ Has (some step) cs
  first_worse : is_better b step ≡ false
  rest_worse : All (NotBetter step) cs

choose-Chosen : (b : Step) (cs : List (Option Step)) → Chosen b cs (choose (some b) cs)
unfolding choose consider
choose-Chosen b [] = record {
  step = b;
  chosen = refl;
  source = inl refl;
  first_worse = not_better_self b;
  rest_worse = tt;
}
choose-Chosen b (none ∷ cs) =
    let r = choose-Chosen b cs in
    record {
      step = r.step;
      chosen = r.chosen;
      source = elim r.source [ inl e ↦ inl e | inr h ↦ inr (inr h) ];
      first_worse = r.first_worse;
      rest_worse = (tt, r.rest_worse);
    }
choose-Chosen b (some c ∷ cs) = elim (Bool-cases (is_better c b)) [
  | inl better ↦
      let r = choose-Chosen c cs in
      record {
        step = r.step;
        chosen = rw better r.chosen;
        source = elim r.source [ inl e ↦ inr (inl (ap some e)) | inr h ↦ inr (inr h) ];
        first_worse = worse_than_replaced b c r.step better r.first_worse;
        rest_worse = (r.first_worse, r.rest_worse);
      }
  | inr worse ↦
      let r = choose-Chosen b cs in
      record {
        step = r.step;
        chosen = rw worse r.chosen;
        source = elim r.source [ inl e ↦ inl e | inr h ↦ inr (inr h) ];
        first_worse = r.first_worse;
        rest_worse = (worse_than_kept b c r.step worse r.first_worse, r.rest_worse);
      }
]

after_none : (cs : List (Option Step)) (o : Option Step) → IsChosen cs o → IsChosen (none ∷ cs) o
after_none cs none h = (refl, h)
after_none cs (some s) (h, k) = (inr h, (tt, k))

pub choose-IsChosen : (cs : List (Option Step)) → IsChosen cs (choose none cs)
unfolding choose consider
choose-IsChosen [] = tt
choose-IsChosen (none ∷ cs) = after_none cs (choose none cs) (choose-IsChosen cs)
choose-IsChosen (some c ∷ cs) =
    let r = choose-Chosen c cs in
    rw r.chosen
      (elim r.source [ inl e ↦ inl (ap some e) | inr h ↦ inr h ], (r.first_worse, r.rest_worse))
