-- ===== src/Prelude/Dicts.antt =====
-- Python's dicts as lists of pairs, in the order of insertion, over a test for the equality of keys.
use mathlib.Core.Bool.{Bool, true, false}
use mathlib.Core.List.{List, [], ◌∷◌}
use mathlib.Core.Option.{Option, none, some}
use pkg_sentinel.Prelude.Tests.{if◌then◌else◌}

module _ {K V : Type 0} (eq : K → K → Bool) where
  -- `d.get(k)`
  abbrev pub dict_get : K → List (K × V) → Option V
  dict_get k [] = none
  dict_get k ((h, v) ∷ rest) = if eq h k then some v else dict_get k rest

  -- `d[k] = v`: a key that is there keeps its place.
  abbrev pub dict_set : K → V → List (K × V) → List (K × V)
  dict_set k v [] = (k, v) ∷ []
  dict_set k v ((h, u) ∷ rest) = if eq h k then (h, v) ∷ rest else (h, u) ∷ dict_set k v rest

  -- `{k: v for k, v in pairs}`
  abbrev pub dict_from : List (K × V) → List (K × V) → List (K × V)
  dict_from [] d = d
  dict_from ((k, v) ∷ rest) d = dict_from rest (dict_set k v d)

  -- `k in d`
  abbrev pub dict_has : K → List (K × V) → Bool
  dict_has k [] = false
  dict_has k ((h, v) ∷ rest) = if eq h k then true else dict_has k rest
