-- ===== src/Action/Move/Closure.antt =====
-- internal/app/action/action_move.go: what `hasPassablePath` has visited.
use clawvival.Base.{
  ℕ, zero, suc, ◌≡◌, refl, sym, ◌⊎◌, arith, Bool, true, false, not, ◌&&◌, ◌||◌, Bool-cases, inl,
  inr, some, List, [], ◌∷◌, ◌++◌,
}
use clawvival.Survival.Types.{Position}
use clawvival.Action.Move.{
  at_pos, Cells, passable_at, seen, Frontier, look, expand, east, west, north, south, search,
}
use clawvival.Action.Move.Measure.{same_pos, at_self}

seen-append : (p : Position) (xs ys : List Position) → seen (xs ++ ys) p ≡ seen xs p || seen ys p
unfolding seen
seen-append p [] ys = refl
seen-append p (x ∷ xs) ys = ground (arith, seen-append p xs ys)

queue_cases :
    (cur p : Position) (q : List Position)
    → seen (cur ∷ q) p ≡ true
    → (at_pos cur p ≡ true) ⊎ (seen q p ≡ true)
unfolding seen
queue_cases cur p q h = ground (arith, h)

module _ (cells : Cells) (target : Position) where
  -- A neighbour is visited or cannot be walked on.
  unfoldable pub covered : List Position → Position → Bool
  covered v n = not (passable_at cells n) || seen v n

  unfoldable pub closed : List Position → Position → Bool
  unfolding covered
  closed v p =
      covered v (east p) && covered v (west p) && covered v (north p) && covered v (south p)

  -- How one frontier goes on to another.
  record Grows (s s' : Frontier) : Type 0 where
    kept : (p : Position) → seen s.visited p ≡ true → seen s'.visited p ≡ true
    kept_queued : (p : Position) → seen s.queue p ≡ true → seen s'.queue p ≡ true
    fresh :
        (p : Position)
        → seen s'.visited p ≡ true
        → (seen s.visited p ≡ true) ⊎ (seen s'.queue p ≡ true)
    out : seen s.visited target ≡ false → seen s'.visited target ≡ false
    unfound : s'.found ≡ false → s.found ≡ false

  Grows-refl : (s : Frontier) → Grows s s
  Grows-refl s = record {
    kept = λ p h. h;
    kept_queued = λ p h. h;
    fresh = λ p h. inl h;
    out = λ h. h;
    unfound = λ h. h;
  }

  Grows-trans : (s t u : Frontier) → Grows s t → Grows t u → Grows s u
  Grows-trans s t u a b = record {
    kept = λ p h. b.kept p (a.kept p h);
    kept_queued = λ p h. b.kept_queued p (a.kept_queued p h);
    fresh = λ p h. elim (b.fresh p h) [
      | inr q ↦ inr q
      | inl v ↦ elim (a.fresh p v) [ inl w ↦ inl w | inr q ↦ inr (b.kept_queued p q) ]
    ];
    out = λ h. b.out (a.out h);
    unfound = λ h. a.unfound (b.unfound h);
  }

  added-Grows :
      (n : Position) (s : Frontier)
      → at_pos n target ≡ false
      → Grows s (record s { visited = n ∷ s.visited; queue = s.queue ++ n ∷ [] })
  unfolding seen
  added-Grows n s miss = record {
    kept = λ p h. ground (arith, h);
    kept_queued = λ p h. ground (arith, h, seen-append p s.queue (n ∷ []));
    fresh = λ p h. ground (arith, h, seen-append p s.queue (n ∷ []));
    out = λ h. ground (arith, h, miss);
    unfound = λ h. h;
  }

  look-Grows : (n : Position) (s : Frontier) → Grows s (look cells target n s)
  unfolding look
  look-Grows n s = elim (Bool-cases (s.found || seen s.visited n || not (passable_at cells n))) [
    | inl skip ↦ rw skip (Grows-refl s)
    | inr free ↦ elim (Bool-cases (at_pos n target)) [
      | inl hit ↦
          rw (free, hit)
            (record {
              kept = λ p h. h;
              kept_queued = λ p h. h;
              fresh = λ p h. inl h;
              out = λ h. h;
              unfound = λ h. absurd (cc h);
            })
      | inr miss ↦ rw (free, miss) (added-Grows n s miss)
    ]
  ]

  look_skip :
      (n : Position) (s : Frontier)
      → (s.found || seen s.visited n || not (passable_at cells n)) ≡ true
      → look cells target n s ≡ s
  unfolding look
  look_skip n s skip = rw skip refl

  look_hit :
      (n : Position) (s : Frontier)
      → (s.found || seen s.visited n || not (passable_at cells n)) ≡ false
      → at_pos n target ≡ true
      → look cells target n s ≡ record s { found = true }
  unfolding look
  look_hit n s free hit = rw (free, hit) refl

  look_add :
      (n : Position) (s : Frontier)
      → (s.found || seen s.visited n || not (passable_at cells n)) ≡ false
      → at_pos n target ≡ false
      → look cells target n s ≡ record s { visited = n ∷ s.visited; queue = s.queue ++ n ∷ [] }
  unfolding look
  look_add n s free miss = rw (free, miss) refl

  skip_covers : (f v p : Bool) → (f || v || not p) ≡ true → f ≡ false → (not p || v) ≡ true
  skip_covers f v p h k = ground arith

  new_covered : (n : Position) (v : List Position) → covered (n ∷ v) n ≡ true
  unfolding covered seen
  new_covered n v = ground (arith, at_self n)

  look_covers :
      (n : Position) (s : Frontier)
      → (look cells target n s).found ≡ false
      → covered (look cells target n s).visited n ≡ true
  look_covers n s h = elim (Bool-cases (s.found || seen s.visited n || not (passable_at cells n))) [
    | inl skip ↦ rw (look_skip n s skip) (
        unfold covered in
        skip_covers s.found (seen s.visited n) (passable_at cells n) skip
          (rw (look_skip n s skip) at h))
    | inr free ↦ elim (Bool-cases (at_pos n target)) [
      | inl hit ↦ absurd (cc (rw (look_hit n s free hit) at h))
      | inr miss ↦ rw (look_add n s free miss) (new_covered n s.visited)
    ]
  ]

  covered_kept :
      (s s' : Frontier) (n : Position)
      → Grows s s'
      → covered s.visited n ≡ true
      → covered s'.visited n ≡ true
  unfolding covered
  covered_kept s s' n g h = ground (arith, h, g.kept n)

  expand-Grows : (cur : Position) (s : Frontier) → Grows s (expand cells target cur s)
  unfolding expand
  expand-Grows cur s =
      let s1 = look cells target (east cur) s in
      let s2 = look cells target (west cur) s1 in
      let s3 = look cells target (north cur) s2 in
      Grows-trans s s1 _ (look-Grows (east cur) s) (
        Grows-trans s1 s2 _ (look-Grows (west cur) s1)
          (Grows-trans s2 s3 _ (look-Grows (north cur) s2) (look-Grows (south cur) s3)))

  expand_closes :
      (cur : Position) (s : Frontier)
      → (expand cells target cur s).found ≡ false
      → closed (expand cells target cur s).visited cur ≡ true
  unfolding expand closed
  expand_closes cur s h =
      let s1 = look cells target (east cur) s in
      let s2 = look cells target (west cur) s1 in
      let s3 = look cells target (north cur) s2 in
      let s4 = look cells target (south cur) s3 in
      let g4 = look-Grows (south cur) s3 in
      let g3 = Grows-trans s2 s3 s4 (look-Grows (north cur) s2) g4 in
      let g2 = Grows-trans s1 s2 s4 (look-Grows (west cur) s1) g3 in
      let h3 = g4.unfound h in
      let h2 = g3.unfound h in
      let h1 = g2.unfound h in
      rw
        (
          covered_kept s1 s4 (east cur) g2 (look_covers (east cur) s h1),
          covered_kept s2 s4 (west cur) g3 (look_covers (west cur) s1 h2),
          covered_kept s3 s4 (north cur) g4 (look_covers (north cur) s2 h3),
          look_covers (south cur) s3 h,
        )
        refl

  closed_kept :
      (s s' : Frontier) (p : Position)
      → Grows s s'
      → closed s.visited p ≡ true
      → closed s'.visited p ≡ true
  unfolding closed
  closed_kept s s' p g h = ground (
    arith,
    h,
    covered_kept s s' (east p) g,
    covered_kept s s' (west p) g,
    covered_kept s s' (north p) g,
    covered_kept s s' (south p) g,
  )

  -- What holds of the visited positions and the queue between the turns.
  pub record IsPending (origin : Position) (v q : List Position) : Type 0 where
    pub start_in : seen v origin ≡ true
    pub target_out : seen v target ≡ false
    pub pending : (p : Position) → seen v p ≡ true → (seen q p ≡ true) ⊎ (closed v p ≡ true)

  next-IsPending :
      (origin cur : Position) (v q : List Position)
      → let s' = expand cells target cur (record { found = false; visited = v; queue = q }) in
        IsPending origin v (cur ∷ q) → s'.found ≡ false → IsPending origin s'.visited s'.queue
  next-IsPending origin cur v q x h =
      let s : Frontier = record { found = false; visited = v; queue = q } in
      let s' = expand cells target cur s in
      let g = expand-Grows cur s in
      record {
        start_in = g.kept origin x.start_in;
        target_out = g.out x.target_out;
        pending = λ p hp. elim (g.fresh p hp) [
          | inr queued ↦ inl queued
          | inl old ↦ elim (x.pending p old) [
            | inr done ↦ inr (closed_kept s s' p g done)
            | inl waits ↦ elim (queue_cases cur p q waits) [
              | inl here ↦ inr (rw (sym (same_pos cur p here)) (expand_closes cur s h))
              | inr later ↦ inl (g.kept_queued p later)
            ]
          ]
        ];
      }

  -- When the queue is empty, what is visited is closed.
  pub search_closed :
      (fuel : ℕ) (origin : Position) (found : Bool) (v q : List Position)
      → search fuel cells target found v q ≡ some false
      → (found ≡ true) ⊎ IsPending origin v q
      → (v' : List Position) × IsPending origin v' []
  unfolding search
  search_closed zero origin found v q h x = absurd (cc h)
  search_closed (suc fuel) origin true v q h x = absurd (cc h)
  search_closed (suc fuel) origin false v [] h (inl lost) = absurd (cc lost)
  search_closed (suc fuel) origin false v [] h (inr x) = (v, x)
  search_closed (suc fuel) origin false v (cur ∷ q) h (inl lost) = absurd (cc lost)
  search_closed (suc fuel) origin false v (cur ∷ q) h (inr x) =
      let s' = expand cells target cur (record { found = false; visited = v; queue = q }) in
      search_closed fuel origin s'.found s'.visited s'.queue h (elim (Bool-cases s'.found) [
        | inl hit ↦ inl hit
        | inr miss ↦ inr (next-IsPending origin cur v q x miss)
      ])
