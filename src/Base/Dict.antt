-- ===== src/Base/Dict.antt =====
-- A Go map with string keys, as an association list in the order in which a `range` visits it.
-- A nil map and an empty one read alike.
use Prim.Native.String.{String}
use mathlib.Core.Path.{◌≡◌}
use mathlib.Core.Option.{Option, none, some}
use mathlib.Core.List.{List, [], ◌∷◌}
use native.Mathlib.Omega.{arith}
use text.Mathlib.Text.{◌==◌}
use text.Mathlib.TextEquality.{eq_iff}
use clawvival.Base.Tests.{if◌then◌else◌}

abbrev pub Dict {ℓ} : Type ℓ → Type ℓ
Dict V = List (String × V)

module _ {ℓ} {V : Type ℓ} where
  -- `v, ok := dict[key]`
  unfoldable pub lookup : String → Dict V → Option V
  lookup key [] = none
  lookup key ((name, old) ∷ rest) = if name == key then some old else lookup key rest

  -- `dict[key] = value`
  unfoldable pub insert : String → V → Dict V → Dict V
  insert key value [] = (key, value) ∷ []
  insert key value ((name, old) ∷ rest) =
      if name == key then (key, value) ∷ rest else (name, old) ∷ insert key value rest

  -- What is found under a name after a value has been put under a key.
  abbrev found : String → V → String → Dict V → Option V
  found key value name dict = if key == name then some value else lookup name dict

  pub lookup-insert :
      (key name : String) (value : V) (dict : Dict V)
      → lookup name (insert key value dict) ≡ found key value name dict
  unfolding insert lookup
  lookup-insert key name value [] = ground arith
  lookup-insert key name value ((first, old) ∷ rest) = ground (
    arith,
    lookup-insert key name value rest,
    eq_iff first name,
    eq_iff first key,
    eq_iff key name,
  )
