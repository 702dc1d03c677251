-- ===== src/Core/Key.antt =====
-- pkg/core/key.go: record keys from path segments. `record.Key` is a type of dal-go: a parameter,
-- with the laws that its documentation states. A text is a sequence of code points.
pub mod Paths
pub mod Safety
pub mod Containment
pub mod Chains
use openvaultdb_go.Base.{
  ℕ, zero, suc, ◌<◌, String, Char, code, List, [], ◌∷◌, ◌++◌, map, Bool, true, false, not, ◌&&◌,
  ◌||◌, ◌==◌, ltb, eqb, if◌then◌else◌, Option, none, some, Result, ok, err, ◌>>=◌, ◌>>◌, require,
  ◌⊕◌, ◌≡◌, fields_func,
}

-- What the package uses of `record.Key`: keys are built from the root and read from the leaf.
pub record Keys : Type 1 where
  pub Key : Type 0
  pub new_key : String → String → Key  -- `NewKeyWithID`
  pub new_child : Key → String → String → Key  -- `NewKeyWithParentAndID`
  pub parent : Key → Option Key
  pub collection : Key → String
  pub key_id : Key → String
  pub depth : Key → ℕ  -- how many ancestors: chains are finite
  pub parent-depth : (k p : Key) → parent k ≡ some p → depth k ≡ suc (depth p)
  pub parent-new_key : (c i : String) → parent (new_key c i) ≡ none
  pub collection-new_key : (c i : String) → collection (new_key c i) ≡ c
  pub key_id-new_key : (c i : String) → key_id (new_key c i) ≡ i
  pub parent-new_child : (k : Key) (c i : String) → parent (new_child k c i) ≡ some k
  pub collection-new_child : (k : Key) (c i : String) → collection (new_child k c i) ≡ c
  pub key_id-new_child : (k : Key) (c i : String) → key_id (new_child k c i) ≡ i

pub data KeyError : Type 0 where
  empty_segment control_character only_separators relative_component odd_segments : KeyError

pub is_control : Char → Bool
is_control c = ltb (code c) 0x20 || eqb (code c) 0x7f

unfoldable pub has_control : String → Bool
unfolding is_control
has_control String.[] = false
has_control (String.◌∷◌ c s) = is_control c || has_control s

is_separator : Char → Bool
is_separator c = eqb (code c) b'/' || eqb (code c) b'\\'

unfoldable pub fields : String → List String
unfolding is_separator fields_func
fields s = fields_func is_separator s

pub is_relative : String → Bool
is_relative part = part == "." || part == ".."

unfoldable pub any_relative : List String → Bool
unfolding is_relative
any_relative [] = false
any_relative (p ∷ ps) = is_relative p || any_relative ps

unfoldable pub is_nil : List String → Bool
is_nil [] = true
is_nil (w ∷ ws) = false

unfoldable pub validate_segment : String → Result KeyError (Unit {0})
unfolding has_control fields is_nil any_relative
validate_segment s = do
  require (not (s == "")) empty_segment
  require (not (has_control s)) control_character
  require (not (is_nil (fields s))) only_separators
  require (not (any_relative (fields s))) relative_component

unfoldable validate_collection_name : String → Result KeyError (Unit {0})
unfolding validate_segment
validate_collection_name name = validate_segment name

pub validate_segments : List String → Result KeyError (Unit {0})
unfolding validate_segment
validate_segments [] = ok tt
validate_segments (s ∷ ss) = validate_segment s >> validate_segments ss

pub is_even : List String → Bool
is_even [] = true
is_even (s ∷ []) = false
is_even (s ∷ t ∷ ss) = is_even ss

pub chains_from : String → List String → List String
chains_from path [] = []
chains_from path (name ∷ names) =
    let longer = if path == "" then name else path ⊕ "/" ⊕ name in longer ∷ chains_from longer names

module _ (K : Keys) where
  open K use {Key, new_key, new_child, parent, collection, depth}

  extend : Option Key → String → String → Key
  extend none c i = new_key c i
  extend (some k) c i = new_child k c i

  -- The loop over the pairs. An odd segment at the end makes no pair.
  build_key : Option Key → List String → Option Key
  unfolding extend
  build_key k (c ∷ i ∷ rest) = build_key (some (extend k c i)) rest
  build_key k _ = k

  built : Option Key → Result KeyError Key
  built none = err odd_segments
  built (some k) = ok k

  -- `len < 2` of an even list is the empty list. The key of a list that passes is never nil.
  unfoldable pub parse_key : List String → Result KeyError Key
  unfolding build_key is_even built validate_segments is_nil
  parse_key segments = do
    require (not (is_nil segments) && is_even segments) odd_segments
    validate_segments segments
    built (build_key none segments)

  -- The loop from the leaf to the root, on as many rounds as the key has ancestors, and one.
  root_from : ℕ → Key → Key
  root_from zero k = k
  root_from (suc n) k = elim (parent k) [ none ↦ k | some p ↦ root_from n p ]

  unfoldable pub root_collection : Key → String
  unfolding root_from
  root_collection key = collection (root_from (depth key) key)

  -- `names = append([]string{cur.Collection()}, names...)` from the leaf to the root.
  names_from : ℕ → Key → List String → List String
  names_from zero k names = collection k ∷ names
  names_from (suc n) k names = elim (parent k) [
    | none ↦ collection k ∷ names
    | some p ↦ names_from n p (collection k ∷ names)
  ]

  unfoldable pub collection_chains : Key → List String
  unfolding names_from chains_from
  collection_chains k = chains_from "" (names_from (depth k) k [])
