-- ===== src/Server/CacheControl.antt =====
-- pkg/server/querylimits.go: `relationalCacheControl`. A header value is its kind and seconds.
use openvaultdb_go.Base.{
  some-injective, ℕ, ◌*◌, ◌/◌, ◌%◌, ◌≤◌, min, String, List, [], ◌∷◌, Bool, true, false, not, ◌||◌,
  ◌==◌, if◌then◌else◌, Option, none, some, ℤ, pos, negsuc, eqb, ltb_ℤ, ◌≡◌, refl, ap, arith, All,
  eq_iff, pos_part, ◌≢◌,
}

-- Durations are nanoseconds.
abbrev second : ℕ
second = 1000000000

abbrev max_cache_ttl : ℕ
max_cache_ttl = 365 * 24 * 3600 * second

pub record CacheFacts : Type 0 where
  pub ttl : ℤ
  pub has_access_policies : Bool
  pub no_retention : Bool

-- "no-store", or "public, max-age=n, s-maxage=n".
pub data CacheControl : Type 0 where
  no_store : CacheControl
  public : ℕ → CacheControl

unfoldable pub uncacheable : CacheFacts → Bool
uncacheable db =
    db.no_retention
    || db.has_access_policies
    || ltb_ℤ db.ttl (pos second)
    || ltb_ℤ (pos max_cache_ttl) db.ttl
    || not (eqb (pos_part db.ttl % second) 0)

-- The loop: `smallest` so far. A duration that passes the tests is not negative.
unfoldable pub smallest_ttl : ℕ → List CacheFacts → Option ℕ
smallest_ttl smallest [] = some smallest
smallest_ttl smallest (db ∷ dbs) =
    let rest = smallest_ttl (min smallest (pos_part db.ttl)) dbs in
    if uncacheable db then none else rest

is_empty : List CacheFacts → Bool
is_empty [] = true
is_empty (db ∷ dbs) = false

cache_for : Option ℕ → CacheControl
cache_for none = no_store
cache_for (some smallest) = public (smallest / second)

unfoldable pub relational_cache_control : Bool → Bool → String → List CacheFacts → CacheControl
unfolding is_empty cache_for
relational_cache_control read_only auth_enabled method dbs =
    if not read_only || auth_enabled || not (method == "GET") || is_empty dbs
    then no_store
    else cache_for (smallest_ttl max_cache_ttl dbs)

-- A database whose answers may be cached, for at least so many seconds.
unfoldable pub CacheableFor : ℕ → CacheFacts → Type 0
CacheableFor n db =
    (db.no_retention ≡ false)
    × (db.has_access_policies ≡ false)
    × ((t : ℕ) × (db.ttl ≡ pos t) × (n * second ≤ t))

min-le : (a b : ℕ) → (min a b ≤ a) × (min a b ≤ b)
min-le a b = (omega arith, omega arith)

some-branch :
    (b : Bool) (o : Option ℕ) {n : ℕ}
    → (if b then none else o) ≡ some n
    → (b ≡ false) × (o ≡ some n)
some-branch true o h = cc
some-branch false o h = (refl, h)

smallest_ttl-lem :
    (smallest : ℕ) (dbs : List CacheFacts) (least : ℕ)
    → smallest_ttl smallest dbs ≡ some least
    → (least ≤ smallest) × All (λ db. (uncacheable db ≡ false) × (least ≤ pos_part db.ttl)) dbs
unfolding smallest_ttl
smallest_ttl-lem smallest [] least h = let e = some-injective h in (omega arith, tt)
smallest_ttl-lem smallest (db ∷ dbs) least h =
    let (good, rest) =
      some-branch (uncacheable db) (smallest_ttl (min smallest (pos_part db.ttl)) dbs) h in
    let (bound, all) = smallest_ttl-lem (min smallest (pos_part db.ttl)) dbs least rest in
    let (x, y) = min-le smallest (pos_part db.ttl) in (omega arith, ((good, omega arith), all))

or_false : (a b : Bool) → (a || b) ≡ false → (a ≡ false) × (b ≡ false)
or_false a b h = ground arith

not_negative : (z : ℤ) → ltb_ℤ z (pos second) ≡ false → z ≡ pos (pos_part z)
not_negative (pos t) h = refl
not_negative (negsuc t) h = absurd (ground arith)

-- A database that passes the tests and does not lower the minimum.
cacheable :
    (n least : ℕ) (db : CacheFacts)
    → n * second ≤ least
    → (uncacheable db ≡ false) × (least ≤ pos_part db.ttl)
    → CacheableFor n db
unfolding uncacheable CacheableFor
cacheable n least db below (good, le) =
    let short = ltb_ℤ db.ttl (pos second) in
    let long = ltb_ℤ (pos max_cache_ttl) db.ttl in
    let (rest, _) =
      or_false (db.no_retention || db.has_access_policies || short || long)
        (not (eqb (pos_part db.ttl % second) 0)) good in
    let (rest, _) = or_false (db.no_retention || db.has_access_policies || short) long rest in
    let (rest, lasting) = or_false (db.no_retention || db.has_access_policies) short rest in
    let (retained, open_to_all) = or_false db.no_retention db.has_access_policies rest in
    (retained, open_to_all, (pos_part db.ttl, not_negative db.ttl lasting, omega arith))

All-cacheable :
    (n least : ℕ) (dbs : List CacheFacts)
    → n * second ≤ least
    → All (λ db. (uncacheable db ≡ false) × (least ≤ pos_part db.ttl)) dbs
    → All (CacheableFor n) dbs
All-cacheable n least [] below h = tt
All-cacheable n least (db ∷ dbs) below (p, h) =
    (cacheable n least db below p, All-cacheable n least dbs below h)

public-branch :
    (b : Bool) (c : CacheControl) {n : ℕ}
    → (if b then no_store else c) ≡ public n
    → (b ≡ false) × (c ≡ public n)
public-branch true c h = cc
public-branch false c h = (refl, h)

cache_for-public :
    (o : Option ℕ) {n : ℕ}
    → cache_for o ≡ public n
    → (least : ℕ) × (o ≡ some least) × (n * second ≤ least)
unfolding cache_for
cache_for-public none h = cc
cache_for-public (some least) {n = n} h =
    let e : least / second ≡ n = public-injective h in (least, refl, omega arith)
  where
    public-injective : {a b : ℕ} → public a ≡ public b → a ≡ b
    public-injective h = cc

-- A public answer is given only by a read-only server without authentication, to GET, over at
-- least one database, each of them without access policies, with retention, and with a TTL that is
-- no shorter than the seconds announced.
pub relational_cache_control-public :
    (read_only auth_enabled : Bool) (method : String) (dbs : List CacheFacts) (n : ℕ)
    → relational_cache_control read_only auth_enabled method dbs ≡ public n
    → (read_only ≡ true)
      × (auth_enabled ≡ false)
      × (method ≡ "GET")
      × (dbs ≢ [])
      × All (CacheableFor n) dbs
unfolding relational_cache_control is_empty
relational_cache_control-public read_only auth_enabled method dbs n h =
    let other = not (method == "GET") in
    let (tests, c) =
      public-branch (not read_only || auth_enabled || other || is_empty dbs)
        (cache_for (smallest_ttl max_cache_ttl dbs)) h in
    let (tests, empty) = or_false (not read_only || auth_enabled || other) (is_empty dbs) tests in
    let (tests, verb) = or_false (not read_only || auth_enabled) other tests in
    let (writable, auth) = or_false (not read_only) auth_enabled tests in
    let (least, found, below) = cache_for-public (smallest_ttl max_cache_ttl dbs) c in
    let (_, all) = smallest_ttl-lem max_cache_ttl dbs least found in
    (
      not_false writable,
      auth,
      (eq_iff _ _).0 (not_false verb),
      (λ e. absurd (ground (arith, ap is_empty e, empty))),
      All-cacheable n least dbs below all,
    )
  where
    not_false : {b : Bool} → not b ≡ false → b ≡ true
    not_false h = ground arith
