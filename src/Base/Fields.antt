-- ===== src/Base/Fields.antt =====
-- `strings.FieldsFunc`, over the code points of a text.
use Prim.Native.Char.{Char}
use Prim.Native.String.{String}
use mathlib.Core.Bool.{Bool}
use mathlib.Core.List.{List, [], ◌∷◌}
use text.Mathlib.Text.{◌==◌}
use openvaultdb_go.Base.Tests.{if◌then◌else◌}
use openvaultdb_go.Base.Texts.{onto_first}

-- The runs between separators, the one being read first: "" where a separator was just met.
unfoldable pub runs : (Char → Bool) → String → List String
runs separates String.[] = "" ∷ []
runs separates (String.◌∷◌ c s) =
    let rest = runs separates s in if separates c then "" ∷ rest else onto_first c rest

unfoldable pub drop_empty : List String → List String
drop_empty [] = []
drop_empty (w ∷ ws) = let rest = drop_empty ws in if w == "" then rest else w ∷ rest

-- `strings.FieldsFunc`: the runs that are not empty.
unfoldable pub fields_func : (Char → Bool) → String → List String
unfolding runs drop_empty
fields_func separates s = drop_empty (runs separates s)
