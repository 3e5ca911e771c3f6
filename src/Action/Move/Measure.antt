-- ===== src/Action/Move/Measure.antt =====
-- internal/app/action/action_move.go: how long `hasPassablePath` runs.
use clawvival.Base.{
  ℕ, zero, suc, ◌+◌, ◌≤◌, ◌<◌, ◌≡◌, refl, ap, arith, eq_of_parts, Bool, true, false, ◌||◌,
  Bool-cases, inl, inr, is_some, List, [], ◌∷◌, length, length-append, if◌then◌else◌,
}
use clawvival.Survival.Types.{Position}
use clawvival.Action.Move.{
  at_pos, Cells, cell_at, passable_at, seen, Frontier, look, expand, east, west, north, south,
  search,
}

pub same_pos : (p q : Position) → at_pos p q ≡ true → p ≡ q
same_pos p q h = λ i. record {
  x = eq_of_parts p.x q.x (ground arith) i;
  y = eq_of_parts p.y q.y (ground arith) i;
}

pub at_self : (p : Position) → at_pos p p ≡ true
at_self p = ground arith

-- How many cells are not visited.
pub unseen : Cells → List Position → ℕ
unseen [] visited = 0
unseen ((q, passable) ∷ cells) visited = (if seen visited q then 0 else 1) + unseen cells visited

unseen_grow :
    (cells : Cells) (n : Position) (v : List Position) → unseen cells (n ∷ v) ≤ unseen cells v
unfolding unseen seen
unseen_grow [] n v = omega arith
unseen_grow ((q, passable) ∷ cells) n v = ground (arith, unseen_grow cells n v)

head_new :
    (q n : Position) (v : List Position)
    → at_pos q n ≡ true
    → seen v n ≡ false
    → (seen v q ≡ false) × (seen (n ∷ v) q ≡ true)
unfolding seen
head_new q n v h new = rw (same_pos q n h) (new, ap (λ b. b || seen v n) (at_self n))

tail_free :
    (q n : Position) (passable : Bool) (cells : Cells)
    → passable_at ((q, passable) ∷ cells) n ≡ true
    → at_pos q n ≡ false
    → passable_at cells n ≡ true
unfolding passable_at cell_at
tail_free q n passable cells free there = ground (arith, free, there)

head_kept : (q n : Position) (v : List Position) → seen v q ≡ true → seen (n ∷ v) q ≡ true
unfolding seen
head_kept q n v h = ground arith

unseen_new :
    (cells : Cells) (n : Position) (v : List Position)
    → passable_at cells n ≡ true
    → seen v n ≡ false
    → unseen cells (n ∷ v) < unseen cells v
unfolding unseen passable_at cell_at
unseen_new [] n v free new = cc
unseen_new ((q, passable) ∷ cells) n v free new = elim (Bool-cases (at_pos q n)) [
  | inl here ↦ ground (arith, head_new q n v here new, unseen_grow cells n v)
  | inr there ↦
      ground
        (arith, head_kept q n v, unseen_new cells n v (tail_free q n passable cells free there) new)
]

pub weight : Cells → Frontier → ℕ
weight cells s = unseen cells s.visited + length s.queue

weight-look :
    (cells : Cells) (target n : Position) (s : Frontier)
    → weight cells (look cells target n s) ≤ weight cells s
unfolding weight look
weight-look cells target n s =
    ground (arith, unseen_new cells n s.visited, length-append s.queue (n ∷ []))

pub weight-expand :
    (cells : Cells) (target cur : Position) (s : Frontier)
    → weight cells (expand cells target cur s) ≤ weight cells s
unfolding expand
weight-expand cells target cur s =
    let s1 = look cells target (east cur) s in
    let s2 = look cells target (west cur) s1 in
    let s3 = look cells target (north cur) s2 in
    omega (
      arith,
      weight-look cells target (east cur) s,
      weight-look cells target (west cur) s1,
      weight-look cells target (north cur) s2,
      weight-look cells target (south cur) s3,
    )

-- From any point of the search, with more fuel than there are cells not visited and positions queued
-- together, the search ends with an answer.
pub search_total :
    (fuel : ℕ) (cells : Cells) (target : Position) (found : Bool) (v q : List Position)
    → unseen cells v + length q < fuel
    → is_some (search fuel cells target found v q) ≡ true
unfolding search weight
search_total zero cells target found v q h = absurd (omega arith)
search_total (suc fuel) cells target true v q h = refl
search_total (suc fuel) cells target false v [] h = refl
search_total (suc fuel) cells target false v (cur ∷ q) h =
    let s : Frontier = record { found = false; visited = v; queue = q } in
    let s' = expand cells target cur s in
    search_total fuel cells target s'.found s'.visited s'.queue
      (omega (arith, weight-expand cells target cur s))

pub unseen_bound : (cells : Cells) (v : List Position) → unseen cells v ≤ length cells
unfolding unseen
unseen_bound [] v = omega arith
unseen_bound ((q, passable) ∷ cells) v = ground (arith, unseen_bound cells v)
