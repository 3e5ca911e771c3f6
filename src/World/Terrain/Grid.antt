-- ===== src/World/Terrain/Grid.antt =====
-- internal/adapter/world/runtime/provider.go: `floorDiv` and `generateChunk`.
use clawvival.Base.{
  ℕ, zero, suc, ◌+◌, ◌-◌, ◌*◌, ◌/◌, ℤ, pos, negsuc, ◌+ℤ◌, ◌*ℤ◌, ◌≤ℤ◌, ◌<ℤ◌, neg, ◌≡◌, ap, ◌⊎◌,
  arith, int_laws, +ℤ_parts, eq_of_parts, pos_part, neg_part, List, [], ◌∷◌, inl, inr, Has,
  Has-append_left, Has-append_right,
}
use clawvival.World.Terrain.{floor_div, count_from, row, grid, chunk_size, generate_chunk, gen_tile}

times_parts :
    (q : ℤ) → pos_part (q *ℤ pos 8) + neg_part q * 8 ≡ neg_part (q *ℤ pos 8) + pos_part q * 8
unfolding ◌*ℤ◌
times_parts (pos q) = ground arith
times_parts (negsuc q) = ground arith

-- The chunk at `floorDiv` of a coordinate holds the coordinate.
floor_div_lem : (a : ℤ) → (floor_div a 8 *ℤ pos 8 ≤ℤ a) × (a <ℤ floor_div a 8 *ℤ pos 8 +ℤ pos 8)
unfolding floor_div
floor_div_lem (pos a) =
    let parts = times_parts (pos (a / 8)) in
    (omega (arith, parts), ground (arith, parts, +ℤ_parts (pos (a / 8) *ℤ pos 8) (pos 8)))
floor_div_lem (negsuc a) =
    let q = neg (pos ((suc a + 8 - 1) / 8)) in
    let parts = times_parts q in
    (ground (arith, parts), ground (arith, parts, +ℤ_parts (q *ℤ pos 8) (pos 8)))

nothing_between : (a x : ℤ) → a ≤ℤ x → x <ℤ a +ℤ pos 0 → ⊥
nothing_between a x low high = omega int_laws

first_or_later : (a x : ℤ) → a ≤ℤ x → (a ≡ x) ⊎ (a +ℤ pos 1 ≤ℤ x)
first_or_later a x low = ground (arith, eq_of_parts a x, +ℤ_parts a (pos 1))

shifted : (a x : ℤ) (n : ℕ) → x <ℤ a +ℤ pos (suc n) → x <ℤ a +ℤ pos 1 +ℤ pos n
shifted a x n high = omega int_laws

pub count_from-Has : (a x : ℤ) (n : ℕ) → a ≤ℤ x → x <ℤ a +ℤ pos n → Has x (count_from a n)
unfolding count_from
count_from-Has a x zero low high = absurd (nothing_between a x low high)
count_from-Has a x (suc n) low high = elim (first_or_later a x low) [
  | inl e ↦ inl e
  | inr later ↦ inr (count_from-Has (a +ℤ pos 1) x n later (shifted a x n high))
]

row-Has : {A : Type 0} (f : ℤ → ℤ → A) (xs : List ℤ) (x y : ℤ) → Has x xs → Has (f x y) (row f xs y)
unfolding row
row-Has f [] x y h = absurd h
row-Has f (z ∷ xs) x y (inl e) = inl (ap (λ i. f i y) e)
row-Has f (z ∷ xs) x y (inr h) = inr (row-Has f xs x y h)

pub grid-Has :
    {A : Type 0} (f : ℤ → ℤ → A) (xs ys : List ℤ) (x y : ℤ)
    → Has x xs
    → Has y ys
    → Has (f x y) (grid f xs ys)
unfolding grid
grid-Has f xs [] x y h k = absurd k
grid-Has f xs (z ∷ ys) x y h (inl e) =
    Has-append_left (f x y) (row f xs z) (grid f xs ys) (rw e (row-Has f xs x y h))
grid-Has f xs (z ∷ ys) x y h (inr k) =
    Has-append_right (f x y) (row f xs z) (grid f xs ys) (grid-Has f xs ys x y h k)

-- The chunk of a coordinate, and the coordinates that the chunk spans.
pub spans-Has : (a : ℤ) → Has a (count_from (floor_div a chunk_size *ℤ pos chunk_size) chunk_size)
spans-Has a =
    let (low, high) = floor_div_lem a in count_from-Has (floor_div a 8 *ℤ pos 8) a 8 low high

-- Each position is in the chunk that `floorDiv` says, with the tile that `genTile` makes.
pub generate_chunk-Has :
    (x y : ℤ)
    → Has
        (gen_tile x y)
        (generate_chunk (record { x = floor_div x chunk_size; y = floor_div y chunk_size })).tiles
unfolding generate_chunk
generate_chunk-Has x y = grid-Has gen_tile _ _ x y (spans-Has x) (spans-Has y)

between : (p q a b : ℤ) → a ≤ℤ b → p *ℤ pos 8 ≤ℤ a → b <ℤ q *ℤ pos 8 +ℤ pos 8 → p ≤ℤ q
between p q a b h low high =
    ground (arith, times_parts p, times_parts q, +ℤ_parts (q *ℤ pos 8) (pos 8))

-- Rounding down keeps order.
pub floor_div-mono : (a b : ℤ) → a ≤ℤ b → floor_div a chunk_size ≤ℤ floor_div b chunk_size
floor_div-mono a b h =
    between (floor_div a 8) (floor_div b 8) a b h (floor_div_lem a).0 (floor_div_lem b).1
