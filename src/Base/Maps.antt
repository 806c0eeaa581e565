-- ===== src/Base/Maps.antt =====
-- std::map with numbers for keys, as an association list in ascending order of the keys.
use Prim.Native.Nat.{ℕ, ◌<◌}
use mathlib.Core.List.{List, [], ◌∷◌}
use mathlib.Core.Option.{Option, none, some}
use stupid_simple.Base.Tests.{ltb, ◌==◌, if◌then◌else◌}

module _ {ℓ} {V : Type ℓ} where
  -- `find`, with the value in place of the iterator.
  unfoldable pub find : ℕ → List (ℕ × V) → Option V
  find k [] = none
  find k ((j, v) ∷ m) = if j == k then some v else find k m

  -- `erase` at the iterator that `find` returned.
  unfoldable pub erase : ℕ → List (ℕ × V) → List (ℕ × V)
  erase k [] = []
  erase k ((j, v) ∷ m) = if j == k then m else (j, v) ∷ erase k m

  -- `insert` of a pair changes nothing where the key is there already.
  unfoldable pub insert : ℕ → V → List (ℕ × V) → List (ℕ × V)
  insert k v [] = (k, v) ∷ []
  insert k v ((j, w) ∷ m) =
      let rest = insert k v m in
      if ltb k j then (k, v) ∷ (j, w) ∷ m else if j == k then (j, w) ∷ m else (j, w) ∷ rest

  -- The keys rise along the list, and all lie above `lo`.
  abbrev pub Above : ℕ → List (ℕ × V) → Type 0
  Above lo [] = Unit {0}
  Above lo (e ∷ m) = (lo < e.0) × Above e.0 m
