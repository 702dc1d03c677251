-- ===== src/JoinExec/Names.antt =====
-- pkg/joinexec/walk.go: the names that a document may carry. The classes of Unicode are parameters;
-- a text is a sequence of code points, so it is always valid UTF-8.
pub mod Agreement
use openvaultdb_go.Base.{
  ℕ, ◌-◌, String, Char, code, List, [], ◌∷◌, Bool, true, false, not, ◌&&◌, ◌||◌, ◌==◌, leb, eqb,
  if◌then◌else◌, bytes, split, ltb, fields_func,
}

-- The classes L, M and Nd, `unicode.IsControl` and `unicode.IsSpace`.
pub record Unicode : Type 0 where
  pub is_letter : Char → Bool
  pub is_mark : Char → Bool
  pub is_digit : Char → Bool
  pub is_control_point : Char → Bool
  pub is_space_point : Char → Bool

abbrev max_name_len : ℕ
max_name_len = 256

pub every : (Char → Bool) → String → Bool
every test String.[] = true
every test (String.◌∷◌ c s) = test c && every test s

-- The test on the first character, and the test on those after it.
pub starts_then : (Char → Bool) → (Char → Bool) → String → Bool
unfolding every
starts_then first later String.[] = false
starts_then first later (String.◌∷◌ c s) = first c && every later s

is_upper_or_lower : Char → Bool
is_upper_or_lower c =
    (leb b'A' (code c) && leb (code c) b'Z') || (leb b'a' (code c) && leb (code c) b'z')

identifier_first : Char → Bool
unfolding is_upper_or_lower
identifier_first c = is_upper_or_lower c || eqb (code c) b'_'

identifier_later : Char → Bool
unfolding identifier_first
identifier_later c = identifier_first c || (leb b'0' (code c) && leb (code c) b'9')

-- `identifierRe`.
unfoldable pub is_identifier : String → Bool
unfolding starts_then identifier_first identifier_later
is_identifier name =
    leb (bytes name) max_name_len && starts_then identifier_first identifier_later name

pub all_of : (String → Bool) → List String → Bool
all_of test [] = true
all_of test (s ∷ ss) = test s && all_of test ss

dash_next : String → Bool
dash_next String.[] = false
dash_next (String.◌∷◌ c s) = eqb (code c) b'-'

-- `strings.Contains(name, "--")`.
pub has_double_dash : String → Bool
unfolding dash_next
has_double_dash String.[] = false
has_double_dash (String.◌∷◌ c s) = (eqb (code c) b'-' && dash_next s) || has_double_dash s

module _ (U : Unicode) where
  open U use {is_letter, is_mark, is_digit, is_control_point, is_space_point}

  letter_or_line : Char → Bool
  letter_or_line c = is_letter c || eqb (code c) b'_'

  segment_first : Char → Bool
  unfolding letter_or_line
  segment_first c = letter_or_line c || is_digit c

  segment_later : Char → Bool
  segment_later c = is_letter c || is_mark c || is_digit c || eqb (code c) b'_' || eqb (code c) b'-'

  -- `(\$[\p{L}_]|[\p{L}\p{Nd}_])[\p{L}\p{M}\p{Nd}_-]*`: "$" is in none of the classes.
  unfoldable is_segment : String → Bool
  unfolding starts_then letter_or_line segment_first segment_later
  is_segment String.[] = false
  is_segment (String.◌∷◌ c s) =
      if eqb (code c) b'$'
      then starts_then letter_or_line segment_later s
      else starts_then segment_first segment_later (String.◌∷◌ c s)

  -- `fieldNameRe` repeats the segment after each ".", which is in none of the classes.
  unfoldable pub is_field_name : String → Bool
  unfolding all_of is_segment has_double_dash
  is_field_name name =
      leb (bytes name) max_name_len
      && all_of is_segment (split "." name)
      && not (has_double_dash name)

  -- A character that the native rule refuses anywhere.
  is_refused : Char → Bool
  is_refused c =
      is_control_point c
      || eqb (code c) b'"'
      || eqb (code c) 0x27
      || eqb (code c) b'`'
      || eqb (code c) 0x5c
      || eqb (code c) b';'

  last_is_space : String → Bool
  last_is_space String.[] = false
  last_is_space (String.◌∷◌ c s) = if s == "" then is_space_point c else last_is_space s

  bare_ends : String → Bool
  unfolding last_is_space
  bare_ends String.[] = false
  bare_ends (String.◌∷◌ c s) = not (is_space_point c) && not (last_is_space (String.◌∷◌ c s))

  unfoldable pub is_native_field_name : String → Bool
  unfolding every is_refused all_of bare_ends
  is_native_field_name name =
      not (name == "")
      && leb (bytes name) max_name_len
      && every (λ c. not (is_refused c)) name
      && all_of bare_ends (split "." name)

-- What `isCollectionName` asks of a character, where it cuts a name, and what it asks of a part.
pub name_char : Char → Bool
name_char c = not (ltb (code c) 0x20 || eqb (code c) 0x7f)

pub cuts_name : Char → Bool
cuts_name c = eqb (code c) b'/' || eqb (code c) b'\\'

pub plain_part : String → Bool
plain_part part = not (part == "." || part == "..")

pub no_parts : List String → Bool
no_parts [] = true
no_parts (p ∷ ps) = false

-- `isCollectionName`, the walk's own copy of the rule for collection names.
unfoldable pub is_collection_name : String → Bool
unfolding every name_char cuts_name plain_part no_parts all_of fields_func
is_collection_name name =
    let parts = fields_func cuts_name name in
    not (name == "") && every name_char name && not (no_parts parts) && all_of plain_part parts

-- `strings.ToUpper` of ASCII, compared with an upper-case text. Other characters never match, as
-- `isASCII` refuses them.
unfoldable pub reads_upper : String → String → Bool
reads_upper String.[] t = t == ""
reads_upper (String.◌∷◌ c s) String.[] = false
reads_upper (String.◌∷◌ c s) (String.◌∷◌ d t) =
    (eqb (if leb b'a' (code c) && leb (code c) b'z' then code c - 32 else code c) (code d))
    && reads_upper s t

unfoldable pub is_aggregate : String → Bool
unfolding reads_upper
is_aggregate name =
    reads_upper name "COUNT"
    || reads_upper name "SUM"
    || reads_upper name "AVG"
    || reads_upper name "MIN"
    || reads_upper name "MAX"

unfoldable pub is_arithmetic : String → Bool
is_arithmetic op = op == "+" || op == "-" || op == "*" || op == "/"
