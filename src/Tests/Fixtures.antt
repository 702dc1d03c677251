-- ===== src/Tests/Fixtures.antt =====
-- Concrete instances of the parameters: principals, keys, numbers, a hash, and a small store.
use openvaultdb_go.Base.{
  suc, code as code_point, false, ◌&&◌, ◌||◌, leb, String, List, [], ◌∷◌, true, Option, none, some,
  ℤ, pos, ◌+ℤ◌, ◌-ℤ◌, ◌≡◌, refl, ap, length,
}
use openvaultdb_go.Auth.Capability.{Capability}
use openvaultdb_go.Auth.Grant.{PrincipalRefs, Grant}
use openvaultdb_go.Auth.Store.{Store, AuthCode, Environment, saved}
use openvaultdb_go.Core.Key.{Keys}
use openvaultdb_go.JoinExec.Names.{Unicode}
use openvaultdb_go.Schema.Values.{Floats}

abbrev pub refs : PrincipalRefs
refs = record {
  Ref = String;
  kind = λ r. r;
  ref_id = λ r. r;
  valid = λ r. true;
  kind_user = "user";
}

-- A key from the leaf: its own pair, and those of its ancestors.
abbrev pub KeyPath : Type 0
KeyPath = (String × String) × List (String × String)

abbrev path_parent : KeyPath → Option KeyPath
path_parent (own, []) = none
path_parent (own, p ∷ ps) = some (p, ps)

pub path_parent-length : (k p : KeyPath) → path_parent k ≡ some p → length k.1 ≡ suc (length p.1)
path_parent-length (own, []) p h = cc
path_parent-length (own, q ∷ qs) p h = ap (λ o. elim o [ some k ↦ suc (length k.1) | none ↦ 0 ]) h

abbrev pub keys : Keys
keys = record {
  Key = KeyPath;
  new_key = λ c i. ((c, i), []);
  new_child = λ k c i. ((c, i), k.0 ∷ k.1);
  parent = path_parent;
  collection = λ k. k.0.0;
  key_id = λ k. k.0.1;
  depth = λ k. length k.1;
  parent-depth = path_parent-length;
  parent-new_key = λ c i. refl;
  collection-new_key = λ c i. refl;
  key_id-new_key = λ c i. refl;
  parent-new_child = λ k c i. refl;
  collection-new_child = λ k c i. refl;
  key_id-new_child = λ k c i. refl;
}

-- Integers in the place of float64.
abbrev pub floats : Floats
floats = record {
  Float = ℤ;
  of_ℕ = pos;
  of_neg = λ n. pos 0 -ℤ pos n;
  of_text = λ t. none;
  is_integral = λ x. true;
  to_int = λ x. x;
  add = ◌+ℤ◌;
  zero_float = pos 0;
}

abbrev pub hash : String → String
hash t = t

abbrev pub read_users : Capability
read_users = record { action = "records:read"; collection = "users" }

abbrev pub alice : Grant String
alice = record {
  subject = none;
  actor = none;
  id = "g1";
  label = "";
  token_hash = "t1";
  principal_type = "application";
  principal_id = "app";
  database_id = "db";
  capabilities = read_users ∷ [];
  issued_at = 1;
  expires_at = 100;
  revoked_at = none;
}

abbrev pub code : AuthCode
code = record {
  client_id = "app";
  redirect_uri = "";
  database_id = "db";
  capabilities = read_users ∷ [];
  expires = 50;
}

abbrev pub store : Store String
store = record {
  heap = alice ∷ [];
  grants = ("t1", 0) ∷ [];
  grants_by_id = ("g1", 0) ∷ [];
  codes = ("c1", code) ∷ [];
  file = none;
}

abbrev pub env : Environment
env = record {
  checked_at = 10;
  issued_at = 11;
  saved_at = 12;
  token_bytes = some "aa";
  id_bytes = some "g2";
  outcome = saved;
}

abbrev pub ascii : Unicode
ascii = record {
  is_letter = λ c.
      (leb b'A' (code_point c) && leb (code_point c) b'Z')
      || (leb b'a' (code_point c) && leb (code_point c) b'z');
  is_mark = λ c. false;
  is_digit = λ c. leb b'0' (code_point c) && leb (code_point c) b'9';
  is_control_point = λ c. leb (code_point c) 0x1f;
  is_space_point = λ c. leb (code_point c) 0x20;
}
