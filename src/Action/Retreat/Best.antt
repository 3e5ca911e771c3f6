-- ===== src/Action/Retreat/Best.antt =====
-- internal/app/action/action_retreat.go: the choice of `bestRetreatStep`.
use mathlib.Core.Path.{subst}
use clawvival.Base.{
  ℕ, ◌+◌, ◌<◌, ℤ, pos, negsuc, ◌+ℤ◌, ◌-ℤ◌, ◌≤ℤ◌, abs, ◌≡◌, refl, sym, ◌∙◌, Option-cases, ◌⊎◌, inl,
  inr, arith, true, false, Option, none, some, List, [], ◌∷◌, All, Has, Bool-cases,
}
use clawvival.Survival.Types.{Position}
use clawvival.World.Types.{Tile}
use clawvival.Action.Retreat.{
  Step, is_better, choose, candidates, candidate, onto, last_at, best_retreat_step,
}
use clawvival.Action.Move.{step_to}
use clawvival.Action.Retreat.Chosen.{NotBetter, IsChosen, choose-IsChosen}

-- The four sides of a position.
abbrev pub sides : List (ℤ × ℤ)
sides = (negsuc 0, pos 0) ∷ (pos 1, pos 0) ∷ (pos 0, negsuc 0) ∷ (pos 0, pos 1) ∷ []

-- The side shows a tile that can be walked on.
abbrev Open : Position → List Tile → ℤ × ℤ → Tile → Type 0
Open p tiles (dx, dy) t = (last_at none tiles (step_to dx dy p) ≡ some t) × (t.passable ≡ true)

-- The side shows no tile, or one that cannot be walked on.
abbrev Closed : Position → List Tile → ℤ × ℤ → Type 0
Closed p tiles (dx, dy) =
    (last_at none tiles (step_to dx dy p) ≡ none)
    ⊎ (t : Tile) × (last_at none tiles (step_to dx dy p) ≡ some t) × (t.passable ≡ false)

-- The distance of a side from the threat.
abbrev distance : Position → Tile → ℤ × ℤ → ℕ
distance p threat (dx, dy) = abs (p.x +ℤ dx -ℤ threat.x) + abs (p.y +ℤ dy -ℤ threat.y)

-- The side is no better than a step: it is closed, or it is nearer to the threat, or as far and not
-- less risky.
abbrev NoBetter : Position → Tile → List Tile → Step → ℤ × ℤ → Type 0
NoBetter p threat tiles s side =
    Closed p tiles side
    ⊎ (t : Tile) × Open p tiles side t
      × ((distance p threat side < s.dist)
          ⊎ (distance p threat side ≡ s.dist) × (s.risk ≤ℤ t.base_threat))

-- The step leads to a side that can be walked on.
abbrev LeadsTo : Position → Tile → List Tile → Step → ℤ × ℤ → Type 0
LeadsTo p threat tiles s side =
    (side ≡ (s.dx, s.dy))
    × (t : Tile) × Open p tiles side t
    × (s.dist ≡ distance p threat side)
    × (s.risk ≡ t.base_threat)

-- What the step of a retreat says of the four sides.
abbrev pub IsChoice : Position → Tile → List Tile → Option Step → Type 0
IsChoice p threat tiles none = All (Closed p tiles) sides
IsChoice p threat tiles (some s) =
    ((side : ℤ × ℤ) × Has side sides × LeadsTo p threat tiles s side)
    × All (NoBetter p threat tiles s) sides

module _ (p : Position) (threat : Tile) (tiles : List Tile) where
  abbrev step_of : ℤ × ℤ → Tile → Step
  step_of (dx, dy) t = record {
    dx = dx;
    dy = dy;
    dist = distance p threat (dx, dy);
    risk = t.base_threat;
  }

  candidate-cases :
      (dx dy : ℤ)
      → Closed p tiles (dx, dy) × (candidate p threat tiles dx dy ≡ none)
        ⊎ (t : Tile) × Open p tiles (dx, dy) t
          × (candidate p threat tiles dx dy ≡ some (step_of (dx, dy) t))
  unfolding candidate onto
  candidate-cases dx dy = elim (Option-cases (last_at none tiles (step_to dx dy p))) [
    | inl unseen ↦ inl (inl unseen, rw unseen refl)
    | inr (t, seen) ↦ elim (Bool-cases t.passable) [
      | inl walkable ↦ inr (t, (seen, walkable), rw (seen, walkable) refl)
      | inr shut ↦ inl (inr (t, seen, shut), rw (seen, shut) refl)
    ]
  ]

  candidate-Closed : (dx dy : ℤ) → candidate p threat tiles dx dy ≡ none → Closed p tiles (dx, dy)
  candidate-Closed dx dy h = elim (candidate-cases dx dy) [
    | inl (closed, e) ↦ closed
    | inr (t, walkable, e) ↦ absurd (cc (sym e ∙ h))
  ]

  leads_to :
      (dx dy : ℤ) (s : Step)
      → candidate p threat tiles dx dy ≡ some s
      → LeadsTo p threat tiles s (dx, dy)
  leads_to dx dy s h = elim (candidate-cases dx dy) [
    | inl (closed, e) ↦ absurd (cc (sym e ∙ h))
    | inr (t, walkable, e) ↦
        let same : step_of (dx, dy) t ≡ s = cc (sym e ∙ h) in
        subst (λ x. LeadsTo p threat tiles x (dx, dy)) same (refl, t, walkable, refl, refl)
  ]

  not_better :
      (c s : Step)
      → is_better c s ≡ false
      → (c.dist < s.dist) ⊎ (c.dist ≡ s.dist) × (s.risk ≤ℤ c.risk)
  not_better c s h = ground arith

  no_better :
      (dx dy : ℤ) (s : Step)
      → NotBetter s (candidate p threat tiles dx dy)
      → NoBetter p threat tiles s (dx, dy)
  no_better dx dy s h = elim (candidate-cases dx dy) [
    | inl (closed, e) ↦ inl closed
    | inr (t, walkable, e) ↦
        inr (t, walkable, not_better (step_of (dx, dy) t) s (subst (NotBetter s) e h))
  ]

  chosen-IsChoice :
      (o : Option Step) → IsChosen (candidates p threat tiles) o → IsChoice p threat tiles o
  unfolding candidates
  chosen-IsChoice none (w, (e, (n, (s, _)))) = (
    candidate-Closed (negsuc 0) (pos 0) w,
    (
      candidate-Closed (pos 1) (pos 0) e,
      (candidate-Closed (pos 0) (negsuc 0) n, (candidate-Closed (pos 0) (pos 1) s, tt)),
    ),
  )
  chosen-IsChoice (some x) (own, (w, (e, (n, (s, _))))) = (
    elim own [
      | inl h ↦ (_, inl refl, leads_to (negsuc 0) (pos 0) x h)
      | inr (inl h) ↦ (_, inr (inl refl), leads_to (pos 1) (pos 0) x h)
      | inr (inr (inl h)) ↦ (_, inr (inr (inl refl)), leads_to (pos 0) (negsuc 0) x h)
      | inr (inr (inr (inl h))) ↦ (_, inr (inr (inr (inl refl))), leads_to (pos 0) (pos 1) x h)
      | inr (inr (inr (inr h))) ↦ elim h [ ]
    ],
    (
      no_better (negsuc 0) (pos 0) x w,
      (
        no_better (pos 1) (pos 0) x e,
        (no_better (pos 0) (negsuc 0) x n, (no_better (pos 0) (pos 1) x s, tt)),
      ),
    ),
  )

-- The step of a retreat leads to one of the four sides that shows a tile that can be walked on, and
-- each other such side is nearer to the threat, or as far and not less risky. There is no step only
-- if no side shows a tile that can be walked on.
pub best_retreat_step-IsChoice :
    (p : Position) (threat : Tile) (tiles : List Tile)
    → IsChoice p threat tiles (best_retreat_step p threat tiles)
unfolding best_retreat_step
best_retreat_step-IsChoice p threat tiles =
    chosen-IsChoice p threat tiles (choose none (candidates p threat tiles))
      (choose-IsChosen (candidates p threat tiles))
