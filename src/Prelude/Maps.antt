-- ===== src/Prelude/Maps.antt =====
-- `HashMap<String, V>`: an association list with the operations that the program uses. The program
-- never reads the order of the entries.
use Prim.Native.String.{String}
use mathlib.Core.Option.{Option, none, some}
use mathlib.Core.List.{List, [], ◌∷◌}
use text.Mathlib.Text.{◌==◌}
use goud_chain.Prelude.Tests.{if◌then◌else◌}

abbrev pub StrMap {ℓ} : Type ℓ → Type ℓ
StrMap V = List (String × V)

module _ {ℓ} {V : Type ℓ} where
  -- `map.insert(key, value)`: the entry of the key, or a new one at the end.
  unfoldable pub insert : String → V → StrMap V → StrMap V
  insert key value ((name, old) ∷ others) =
      if key == name then (key, value) ∷ others else (name, old) ∷ insert key value others
  insert key value [] = (key, value) ∷ []

  -- `map.get(key)`
  unfoldable pub lookup : String → StrMap V → Option V
  lookup key ((name, value) ∷ others) = if key == name then some value else lookup key others
  lookup key [] = none

  -- `unwrap_or(d)`
  abbrev pub unwrap_or : V → Option V → V
  unwrap_or d none = d
  unwrap_or d (some v) = v
