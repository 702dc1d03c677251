-- ===== src/Tests/NameRuns.antt =====
-- pkg/core/collection_names.go, write_guard.go at a SQLite manifest with a quoted key.
use openvaultdb_go.Base.{
  String, List, [], ◌∷◌, false, none, some, ok, err, ℤ, ◌≡◌, refl, ◌≢◌, ◌↔◌, lookup, insert, All,
  split, bytes,
}
use openvaultdb_go.Schema.Values.{field, end, text}
use openvaultdb_go.Schema.Declarations.{Collection}
use openvaultdb_go.Core.Updates.{UpdateOp}
use openvaultdb_go.Core.Batch.{Op}
use openvaultdb_go.Core.Quoting.{sqlite_logical_name}
use openvaultdb_go.Core.Quoting.RoundTrip.{quoted, sqlite_logical_name_iff}
use openvaultdb_go.Core.Collections.{
  Manifest, CollectionNames, adapter_key, insert_key, new_collection_names,
}
use openvaultdb_go.Core.Collections.Declared.{IsDeclared, new_collection_names_ok}
use openvaultdb_go.Core.WriteGuard.{
  Guarded, is_document_engine, refused, key_column_case, guard_write, adapter_ops,
}
use openvaultdb_go.Core.WriteGuard.Opening.{open_guarded}
use openvaultdb_go.JoinExec.Names.{is_field_name}
use openvaultdb_go.Auth.Middleware.{strip_fold}
use openvaultdb_go.Core.WriteGuard.Sound.{IsSafe, guard_write-IsSafe}
use openvaultdb_go.Tests.Fixtures.{KeyPath, keys, ascii}

logical-name : sqlite_logical_name "\"Say \"\"hi\"\"\"" ≡ some "Say \"hi\""
unfolding sqlite_logical_name
logical-name = refl

stray-quote : sqlite_logical_name "\"a\"b\"" ≡ none
unfolding sqlite_logical_name
stray-quote = refl

sqlite_logical_name_iff_example :
    (sqlite_logical_name "\"Orders\"" ≡ some "Orders")
    ↔ ((◌≢◌ {A = String} "Orders" "") × ("\"Orders\"" ≡ quoted "Orders"))
sqlite_logical_name_iff_example = sqlite_logical_name_iff "\"Orders\"" "Orders"

abbrev any_fields : Collection
any_fields = record { fields = []; references = []; source = none }

abbrev shop : Manifest
shop = record {
  engine = "sqlite";
  collections = some (("users", any_fields) ∷ ("\"Orders\"", any_fields) ∷ []);
}

abbrev names : CollectionNames
names = record {
  canonical = ("Orders", "Orders") ∷ ("\"Orders\"", "Orders") ∷ ("users", "users") ∷ [];
  spellings = ("Orders", "Orders" ∷ "\"Orders\"" ∷ []) ∷ ("users", "users" ∷ []) ∷ [];
}

shop-names : new_collection_names shop ≡ ok names
unfolding new_collection_names lookup insert
shop-names = refl

new_collection_names_ok_example : IsDeclared shop names
new_collection_names_ok_example = new_collection_names_ok shop names shop-names

abbrev guarded : Guarded
guarded = record {
  engine = "sqlite";
  native_postgres = false;
  document_engine = false;
  names = names;
}

shop-opened : open_guarded shop false ≡ ok guarded
unfolding open_guarded new_collection_names lookup insert is_document_engine
shop-opened = refl

abbrev order : KeyPath
order = (("\"Orders\"", "o1"), [])

abbrev rename : UpdateOp ℤ
rename = record {
  field_name = "name";
  field_path = [];
  value = text "Rob";
  delete = false;
  transform = "";
  server_timestamp = false;
}

abbrev writes : List (Op KeyPath ℤ)
writes =
    record {
      op = "set";
      key = some order;
      fields = some (field "name" (text "Bob") end);
      updates = [];
    }
    ∷ record { op = "update"; key = some order; fields = none; updates = rename ∷ [] }
    ∷ []

guard_write-IsSafe_example : All (IsSafe ascii keys guarded) (adapter_ops keys names writes)
unfolding guard_write lookup insert_key is_field_name bytes split strip_fold
guard_write-IsSafe_example =
    guard_write-IsSafe ascii keys guarded shop false writes shop-opened refl refl

canonical-order : adapter_key keys names order ≡ (("Orders", "o1"), [])
unfolding adapter_key lookup
canonical-order = refl

abbrev in_capitals : List (Op KeyPath ℤ)
in_capitals =
    record {
      op = "set";
      key = some order;
      fields = some (field "ID" (text "Bob") end);
      updates = [];
    }
    ∷ []

key-in_capitals : guard_write ascii keys guarded in_capitals ≡ err (refused 0 key_column_case)
unfolding guard_write lookup insert_key is_field_name bytes split strip_fold
key-in_capitals = refl
