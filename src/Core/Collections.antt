-- ===== src/Core/Collections.antt =====
-- pkg/core/collection_names.go, write_guard.go: the names under which a mount declares its collections,
-- and the one name each of them has for the adapter.
pub mod Spellings
pub mod Declared
use Prim.Native.String.{compare}
use Prim.Native.Nat.{Ordering}
use openvaultdb_go.Base.{
  ℕ, String, eqb_ℤ, List, [], ◌∷◌, ◌++◌, Bool, true, false, not, ◌&&◌, ◌||◌, ◌==◌, eqb, length,
  if◌then◌else◌, Option, none, some, Result, ok, err, ◌>>◌, ◌>>=◌, require, lookup, insert,
}
use openvaultdb_go.Schema.Declarations.{
  FieldType, type_string, type_number, type_decimal, type_integer, type_boolean, type_object,
  type_array, type_any, type_other, Decimal, Field, Collection,
}
use openvaultdb_go.Core.Key.{Keys}
use openvaultdb_go.Core.Quoting.{sqlite_logical_name}

-- What the declared names use of a manifest: the engine, and the collections if there are schemas.
pub record Manifest : Type 0 where
  pub engine : String
  pub collections : Option (List (String × Collection))

pub record CollectionNames : Type 0 where
  pub canonical : List (String × String)
  pub spellings : List (String × List String)

pub data NamesConflict : Type 0 where
  different_fields : String → String → NamesConflict
  two_names : String → NamesConflict

same_type : FieldType → FieldType → Bool
same_type type_string type_string = true
same_type type_number type_number = true
same_type type_decimal type_decimal = true
same_type type_integer type_integer = true
same_type type_boolean type_boolean = true
same_type type_object type_object = true
same_type type_array type_array = true
same_type type_any type_any = true
same_type (type_other s) (type_other t) = s == t
same_type _ _ = false

abbrev same_flag : Bool → Bool → Bool
same_flag true b = b
same_flag false b = not b

same_decimal : Option Decimal → Option Decimal → Bool
same_decimal none none = true
same_decimal (some a) (some b) =
    eqb_ℤ a.precision b.precision
    && eqb_ℤ a.scale b.scale
    && same_flag a.unbounded b.unbounded
    && a.storage == b.storage
same_decimal _ _ = false

equal_schema_field : Field → Field → Bool
unfolding same_type same_decimal
equal_schema_field a b =
    same_type a.type b.type && same_flag a.required b.required && same_decimal a.decimal b.decimal

-- `maps.EqualFunc`.
equal_field : Field → Option Field → Bool
unfolding equal_schema_field
equal_field a none = false
equal_field a (some b) = equal_schema_field a b

each_equal : List (String × Field) → List (String × Field) → Bool
unfolding equal_field
each_equal [] fs = true
each_equal ((name, f) ∷ es) fs = equal_field f (lookup name fs) && each_equal es fs

unfoldable pub fields_of : Option Collection → List (String × Field)
fields_of none = []
fields_of (some c) = c.fields

same_fields : List (String × Collection) → String → String → Bool
unfolding each_equal fields_of
same_fields cs first key =
    let fs = fields_of (lookup first cs) in
    let gs = fields_of (lookup key cs) in eqb (length fs) (length gs) && each_equal fs gs

abbrev pub before : String → String → Bool
before a b = elim (compare a b) [ Ordering.lt ↦ true | _ ↦ false ]

unfoldable pub insert_key : String → List String → List String
insert_key k [] = k ∷ []
insert_key k (l ∷ ls) = let rest = insert_key k ls in if before k l then k ∷ l ∷ ls else l ∷ rest

-- The keys in order.
unfoldable pub sorted_keys : List (String × Collection) → List String
unfolding insert_key
sorted_keys [] = []
sorted_keys ((k, c) ∷ cs) = insert_key k (sorted_keys cs)

abbrev pub given : Option String → String → String
given none key = key
given (some s) key = s

unfoldable pub canonical_of : String → String → String
unfolding sqlite_logical_name
canonical_of engine key = if engine == "sqlite" then given (sqlite_logical_name key) key else key

unfoldable listed : String → List String → Bool
listed s [] = false
listed s (t ∷ ts) = t == s || listed s ts

unfoldable add_spelling : String → Option (List String) → List String
unfolding listed
add_spelling s none = s ∷ []
add_spelling s (some ts) = if listed s ts then ts else ts ++ s ∷ []

-- Whether the name has no other canonical name.
unfoldable pub is_free : Option String → String → Bool
is_free none canonical = true
is_free (some other) canonical = other == canonical

unfoldable pub declare_spelling :
    String → String → CollectionNames → Result NamesConflict CollectionNames
unfolding is_free add_spelling
declare_spelling canonical s names = do
  require (is_free (lookup s names.canonical) canonical) (two_names s)
  ok (record {
    canonical = insert s canonical names.canonical;
    spellings =
        insert canonical (add_spelling s (lookup canonical names.spellings)) names.spellings;
  })

-- The first key that declares a canonical name, and whether this key may declare it too.
unfoldable first_or_same :
    List (String × Collection) → String → Option String → Result NamesConflict (Unit {0})
unfolding same_fields
first_or_same cs key none = ok tt
first_or_same cs key (some first) = require (same_fields cs first key) (different_fields first key)

kept_first : String → Option String → String
kept_first key none = key
kept_first key (some first) = first

unfoldable pub declare_keys :
    Manifest
    → List (String × Collection)
    → List String
    → List (String × String)
    → CollectionNames
    → Result NamesConflict CollectionNames
unfolding canonical_of declare_spelling first_or_same kept_first
declare_keys m cs [] declared_by names = ok names
declare_keys m cs (key ∷ keys) declared_by names = do
  first_or_same cs key (lookup (canonical_of m.engine key) declared_by)
  with_canonical ← declare_spelling (canonical_of m.engine key) (canonical_of m.engine key) names
  with_key ← declare_spelling (canonical_of m.engine key) key with_canonical
  declare_keys m cs keys
      (insert (canonical_of m.engine key)
        (kept_first key (lookup (canonical_of m.engine key) declared_by)) declared_by)
      with_key

unfoldable pub new_collection_names : Manifest → Result NamesConflict CollectionNames
unfolding declare_keys sorted_keys
new_collection_names m = elim m.collections [
  | none ↦ ok (record { canonical = []; spellings = [] })
  | some cs ↦ declare_keys m cs (sorted_keys cs) [] (record { canonical = []; spellings = [] })
]

-- `CollectionSpellings`.
unfoldable pub collection_spellings : CollectionNames → String → List String
collection_spellings names name = elim (lookup name names.canonical) [
  | none ↦ name ∷ []
  | some c ↦ elim (lookup c names.spellings) [ none ↦ [] | some ss ↦ ss ]
]

unfoldable first_found : List (String × Collection) → List String → Option Collection
first_found cs [] = none
first_found cs (s ∷ ss) =
    let rest = first_found cs ss in elim (lookup s cs) [ none ↦ rest | some c ↦ some c ]

-- `schemaCollection`, in the live collections.
unfoldable schema_collection :
    CollectionNames → List (String × Collection) → String → Option Collection
unfolding first_found collection_spellings
schema_collection names cs name = first_found cs (name ∷ collection_spellings names name)

module _ (K : Keys) where
  open K use {Key, new_key, parent, collection, key_id}

  -- `adapterKey`: only a key without a parent is renamed.
  unfoldable pub adapter_key : CollectionNames → Key → Key
  adapter_key names k = elim (parent k) [
    | some p ↦ k
    | none ↦ elim (lookup (collection k) names.canonical) [
      | none ↦ k
      | some c ↦ if c == collection k then k else new_key c (key_id k)
    ]
  ]
