-- ===== src/Core/Quoting.antt =====
-- pkg/core/write_guard.go: `SQLiteLogicalName`, the name inside a quoted identifier.
pub mod RoundTrip
use openvaultdb_go.Base.{
  String, Char, code, Bool, true, false, eqb, if◌then◌else◌, ◌==◌, Option, none, some,
}

is_quote : Char → Bool
is_quote c = eqb (code c) b'"'

abbrev prepend : Char → Option String → Option String
prepend c none = none
prepend c (some s) = some (String.◌∷◌ c s)

-- A text of at least one character, without the quote that it must end with.
unfoldable before_quote : Char → String → Option String
unfolding is_quote
before_quote c String.[] = if is_quote c then some "" else none
before_quote c (String.◌∷◌ d s) = prepend c (before_quote d s)

-- A doubled quote is one; the flag says that one quote was read that wants another.
unfoldable unquote : Bool → String → Option String
unfolding is_quote
unquote false String.[] = some ""
unquote true String.[] = none
unquote false (String.◌∷◌ c s) =
    let waiting = unquote true s in
    let rest = unquote false s in if is_quote c then waiting else prepend c rest
unquote true (String.◌∷◌ c s) =
    let rest = unquote false s in if is_quote c then prepend c rest else none

unfoldable not_blank : String → Option String
not_blank s = if s == "" then none else some s

abbrev and_then {ℓ κ} : {A : Type ℓ} {B : Type κ} → Option A → (A → Option B) → Option B
and_then none k = none
and_then (some a) k = k a

-- `SQLiteLogicalName`: the name inside a quoted identifier.
unfoldable pub sqlite_logical_name : String → Option String
unfolding before_quote unquote is_quote not_blank
sqlite_logical_name String.[] = none
sqlite_logical_name (String.◌∷◌ c String.[]) = none
sqlite_logical_name (String.◌∷◌ c (String.◌∷◌ d s)) =
    if is_quote c then and_then (and_then (before_quote d s) (unquote false)) not_blank else none
