-- ===== src/World/Provider/Window.antt =====
-- internal/adapter/world/runtime/provider.go: the chunks of `loadChunksForWindow`.
use clawvival.Base.{
  ℤ, pos, ◌+ℤ◌, ◌-ℤ◌, ◌≤ℤ◌, ◌<ℤ◌, pos_part, ◌≡◌, refl, ◌∙◌, ◌⊎◌, inl, inr, int_laws, String, Bool,
  true, Bool-cases, Option, none, some, List, [], ◌∷◌, map, Has, Has-append_left, Has-append_right,
}
use clawvival.Base.Store.{Stored, return, bind-eq}
use clawvival.World.Types.{Point, Tile, Chunk}
use clawvival.World.Terrain.{floor_div, count_from, chunk_size, generate_chunk}
use clawvival.World.Terrain.Grid.{floor_div-mono, count_from-Has, grid-Has}
use clawvival.World.Provider.{
  ChunkStore, load_chunk, load_chunks, found_or_new, window_coords, coord_at, steps, in_window,
  darkened, visible, chunk_tiles,
}

before : (m n k : ℤ) → m ≤ℤ k → k ≤ℤ n → k <ℤ m +ℤ pos (pos_part (n -ℤ m +ℤ pos 1))
before m n k low high = omega int_laws

in_range :
    (c r a : ℤ)
    → c -ℤ r ≤ℤ a
    → a ≤ℤ c +ℤ r
    → Has (floor_div a chunk_size) (
        count_from
          (floor_div (c -ℤ r) chunk_size)
          (steps (floor_div (c -ℤ r) chunk_size) (floor_div (c +ℤ r) chunk_size)))
in_range c r a low high =
    let lo = floor_div-mono (c -ℤ r) a low in
    let hi = floor_div-mono a (c +ℤ r) high in
    count_from-Has _ _ _ lo
      (before (floor_div (c -ℤ r) 8) (floor_div (c +ℤ r) 8) (floor_div a 8) lo hi)

-- The window's chunks contain the chunk of each position in sight.
pub window_coords-Has :
    (center : Point) (r x y : ℤ)
    → center.x -ℤ r ≤ℤ x
    → x ≤ℤ center.x +ℤ r
    → center.y -ℤ r ≤ℤ y
    → y ≤ℤ center.y +ℤ r
    → Has (coord_at (floor_div x chunk_size) (floor_div y chunk_size)) (window_coords center r)
unfolding window_coords
window_coords-Has center r x y west east south north =
    grid-Has coord_at _ _ _ _ (in_range center.x r x west east) (in_range center.y r y south north)

pub chunk_tiles-Has :
    (t : Tile) (k : Chunk) (ks : List Chunk) → Has k ks → Has t k.tiles → Has t (chunk_tiles ks)
unfolding chunk_tiles
chunk_tiles-Has t k [] h i = absurd h
chunk_tiles-Has t k (j ∷ ks) (inl e) i = Has-append_left t j.tiles (chunk_tiles ks) (rw e i)
chunk_tiles-Has t k (j ∷ ks) (inr h) i =
    Has-append_right t j.tiles (chunk_tiles ks) (chunk_tiles-Has t k ks h i)

pub visible-Has :
    (center : Point) (r : ℤ) (d : Bool) (t : Tile) (ts : List Tile)
    → Has t ts
    → in_window center r t ≡ true
    → Has (darkened d t) (visible center r d ts)
unfolding visible
visible-Has center r d t [] h i = absurd h
visible-Has center r d t (u ∷ ts) (inl e) i = rw (e, i) (inl refl)
visible-Has center r d t (u ∷ ts) (inr h) i = elim (Bool-cases (in_window center r u)) [
  | inl inside ↦ rw inside (inr (visible-Has center r d t ts h i))
  | inr outside ↦ rw outside (visible-Has center r d t ts h i)
]

module _ {S : Type 0} where
  -- A chunk store that answers, and whose chunks are those that are generated.
  pub record IsFaithful (store : ChunkStore S) (Sound : S → Type 0) : Type 0 where
    pub finds :
        (c : Point) (phase : String) (s : S)
        → Sound s
        → (found : Option Chunk) × (s' : S) × (store.get_chunk c phase s ≡ some (found, s'))
          × ((found ≡ none) ⊎ (found ≡ some (generate_chunk c)))
          × Sound s'
    pub saves :
        (c : Point) (phase : String) (s : S)
        → Sound s
        → (s' : S) × (store.save_chunk c phase (generate_chunk c) s ≡ some (tt, s')) × Sound s'

  -- No store, or one that is faithful.
  unfoldable pub Serves : Option (ChunkStore S) → (S → Type 0) → Type 0
  Serves none Sound = Unit
  Serves (some store) Sound = IsFaithful store Sound

  Loaded : (S → Type 0) → {A : Type 0} → Stored S A → A → S → Type 0
  Loaded Sound m a s = (s' : S) × (m s ≡ some (a, s')) × Sound s'

  found_or_new_sound :
      (store : ChunkStore S) (Sound : S → Type 0)
      → IsFaithful store Sound
      → (c : Point) (phase : String) (found : Option Chunk) (s : S)
      → (found ≡ none) ⊎ (found ≡ some (generate_chunk c))
      → Sound s
      → Loaded Sound (found_or_new store phase c found) (generate_chunk c) s
  unfolding found_or_new Loaded
  found_or_new_sound store Sound faithful c phase found s (inl new) sound =
      let (s', saved, after) = faithful.saves c phase s sound in
      (
        s',
        rw (new, found_or_new)
            (bind-eq (store.save_chunk c phase (generate_chunk c)) (λ _. return (generate_chunk c))
              s s' tt saved),
        after,
      )
  found_or_new_sound store Sound faithful c phase found s (inr old) sound =
      (s, rw (old, found_or_new) refl, sound)

  load_chunk_sound :
      (store : Option (ChunkStore S)) (Sound : S → Type 0)
      → Serves store Sound
      → (c : Point) (phase : String) (s : S) → Sound s
      → Loaded Sound (load_chunk store phase c) (generate_chunk c) s
  unfolding load_chunk Loaded Serves
  load_chunk_sound none Sound serves c phase s sound = (s, refl, sound)
  load_chunk_sound (some store) Sound serves c phase s sound =
      let (found, s', got, which, sound') = serves.finds c phase s sound in
      let (s'', loaded, sound'') =
        found_or_new_sound store Sound serves c phase found s' which sound' in
      (
        s'',
        bind-eq (store.get_chunk c phase) (found_or_new store phase c) s s' found got ∙ loaded,
        sound'',
      )

  -- Whatever of them the store has, the chunks that are loaded are those that are generated.
  pub load_chunks_lem :
      (store : Option (ChunkStore S)) (Sound : S → Type 0)
      → Serves store Sound
      → (cs : List Point) (phase : String) (s : S) → Sound s
      → (s' : S) × (load_chunks store phase cs s ≡ some (map generate_chunk cs, s')) × Sound s'
  unfolding load_chunks Loaded
  load_chunks_lem store Sound serves [] phase s sound = (s, refl, sound)
  load_chunks_lem store Sound serves (c ∷ cs) phase s sound =
      let (s', loaded, sound') = load_chunk_sound store Sound serves c phase s sound in
      let (s'', rest, sound'') = load_chunks_lem store Sound serves cs phase s' sound' in
      (
        s'',
        bind-eq (load_chunk store phase c) _ s s' (generate_chunk c) loaded
            ∙ bind-eq (load_chunks store phase cs) _ s' s'' (map generate_chunk cs) rest,
        sound'',
      )
