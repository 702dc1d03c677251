-- ===== src/Auth/Store/Calls.antt =====
-- pkg/auth/store.go: histories of calls on the store, which its mutex puts in an order.
use openvaultdb_go.Base.{ℕ, String, List, [], ◌∷◌}
use openvaultdb_go.Auth.Capability.{Capability}
use openvaultdb_go.Auth.Grant.{PrincipalRefs, Grant}
use openvaultdb_go.Auth.Store.{Store, SaveOutcome, Environment, put_code, exchange_code}
use openvaultdb_go.Auth.Store.Admin.{create_grant, revoke_grant}

-- A call on the store, with what it reads from outside.
pub data Call (Ref : Type 0) : Type 0 where
  puts : (code client redirect database : String) → List Capability → ℕ → Call Ref
  exchanges : (code client : String) → Environment → Call Ref
  creates : Grant Ref → (token : String) → Environment → Call Ref
  revokes : (id : String) → (now saved_at : ℕ) → SaveOutcome → Call Ref

module _ (P : PrincipalRefs) (hash : String → String) where
  open P use {Ref}

  -- The calls are serialised by the mutex: a history is a list of calls.
  unfoldable pub step : Call Ref → Store Ref → Store Ref
  step (puts code client redirect database caps now) s =
      put_code code client redirect database caps now s
  step (exchanges code client env) s = (exchange_code hash code client env s).0
  step (creates g token env) s = (create_grant P hash g token env s).0
  step (revokes id now saved_at outcome) s = (revoke_grant id now saved_at outcome s).0

  unfoldable pub run : List (Call Ref) → Store Ref → Store Ref
  run [] s = s
  run (c ∷ cs) s = run cs (step c s)
