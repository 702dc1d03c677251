-- ===== src/Server/Cors.antt =====
-- pkg/server/cors.go: the origins that a server answers to, and the headers of its answers. The
-- syntax of a header name, of golang.org/x/net, is a parameter.
pub mod Scanning
pub mod Origins
pub mod Answers
use Prim.Native.Char.{code}
use openvaultdb_go.Base.{
  ℕ, ◌+◌, String, List, [], ◌∷◌, ◌++◌, Bool, true, false, not, ◌&&◌, ◌||◌, ◌==◌, leb, eqb,
  if◌then◌else◌, Option, none, some, Result, ok, err, ◌>>=◌, ◌>>◌, require, split, join, trim_space,
  ◌⊕◌,
}

pub record CorsConfig : Type 0 where
  pub allow_headers : List String
  pub expose_headers : List String
  pub allow_all : Bool
  pub exact : List String

-- What the loops of `ParseCORSOrigins` leave: returned early at "*", or gone on.
pub data Scan : Type 0 where
  stopped going : CorsConfig → Scan

keep : String → CorsConfig → CorsConfig
keep o c = if o == "" then c else record c { exact = c.exact ++ o ∷ [] }

-- The inner loop, over the pieces of a value.
unfoldable pub scan_pieces : List String → CorsConfig → Scan
unfolding keep
scan_pieces [] c = going c
scan_pieces (raw ∷ pieces) c =
    let rest = scan_pieces pieces (keep (trim_space raw) c) in
    if trim_space raw == "*" then stopped (record c { allow_all = true }) else rest

unfoldable pub scan_values : List String → CorsConfig → Scan
scan_values [] c = going c
scan_values (v ∷ vs) c = elim (scan_pieces (split "," v) c) [
  | stopped c ↦ stopped c
  | going c ↦ scan_values vs c
]

is_empty : List String → Bool
is_empty [] = true
is_empty (o ∷ os) = false

parsed : Scan → Option CorsConfig
unfolding is_empty
parsed (stopped c) = some c
parsed (going c) = if is_empty c.exact then none else some c

abbrev pub no_origins : CorsConfig
no_origins = record { allow_headers = []; expose_headers = []; allow_all = false; exact = [] }

unfoldable pub parse_cors_origins : List String → Option CorsConfig
unfolding parsed is_empty
parse_cors_origins values = if is_empty values then none else parsed (scan_values values no_origins)

unfoldable pub holds : String → List String → Bool
holds o [] = false
holds o (p ∷ ps) = p == o || holds o ps

unfoldable pub allowed_origin : Option CorsConfig → String → String
unfolding holds
allowed_origin none origin = ""
allowed_origin (some c) origin =
    if origin == ""
    then ""
    else (if c.allow_all then "*" else (if holds origin c.exact then origin else ""))

-- The headers that the middleware sets, whether the handler is called, and the status if it is not.
pub record CorsAnswer : Type 0 where
  pub vary : String
  pub allow_origin : Option String
  pub allow_methods : Option String
  pub allow_headers : Option String
  pub max_age : Option String
  pub expose_headers : Option String
  pub status : Option ℕ
  pub served : Bool

abbrev cors_allow_headers : String
cors_allow_headers = "Authorization,Content-Type,OVDB-Page-Size,OVDB-Page-Token,OVDB-Page-Close"

header_suffix : List String → String
header_suffix [] = ""
header_suffix (n ∷ ns) = "," ⊕ join "," (n ∷ ns)

names_of : (CorsConfig → List String) → Option CorsConfig → List String
names_of f none = []
names_of f (some c) = f c

-- Only the answers to an origin that is not allowed are reached without a configuration.
unfoldable pub cors_middleware : Option CorsConfig → String → String → CorsAnswer
unfolding header_suffix names_of is_empty
cors_middleware cfg method origin =
    let allowed = allowed_origin cfg origin in
    let given = not (allowed == "") in
    let exposed = names_of (λ c. c.expose_headers) cfg in
    if method == "OPTIONS" && not (origin == "")
    then record {
      vary = "Origin";
      allow_origin = if given then some allowed else none;
      allow_methods = if given then some "GET,HEAD,POST,PUT,PATCH,DELETE" else none;
      allow_headers =
          if given
          then some (cors_allow_headers ⊕ header_suffix (names_of (λ c. c.allow_headers) cfg))
          else none;
      max_age = if given then some "600" else none;
      expose_headers = none;
      status = some 204;
      served = false;
    }
    else record {
      vary = "Origin";
      allow_origin = if given then some allowed else none;
      allow_methods = none;
      allow_headers = none;
      max_age = none;
      expose_headers = if given && not (is_empty exposed) then some (join "," exposed) else none;
      status = none;
      served = true;
    }
