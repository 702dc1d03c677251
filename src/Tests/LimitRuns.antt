-- ===== src/Tests/LimitRuns.antt =====
-- pkg/joinexec and pkg/server at concrete inputs.
use openvaultdb_go.Base.{
  Memᴰ, ◌⊎◌, split, trim_space, ℕ, ◌+◌, ◌≤◌, String, List, [], ◌∷◌, length, true, false, Option,
  none, some, ok, ◌≡◌, refl, ◌≢◌, ◌↔◌, All, arith, pos, lookup, insert,
}
use openvaultdb_go.JoinExec.Guard.{Limits, Guard, refused, fail, charge}
use openvaultdb_go.JoinExec.Guard.Reading.{
  Reader, row, next, stopped, Section, fails, others, finish, Read, record_read_ok, read_end, drain,
  collect,
}
use openvaultdb_go.JoinExec.Guard.Budget.{HasBudget, charge_all, total, charge_all_iff}
use openvaultdb_go.JoinExec.Guard.Reading.Answers.{ReadsAll, OnlyRows, collect_iff}
use openvaultdb_go.JoinExec.Guard.Reading.Interleaved.{Sound, next-Sound}
use openvaultdb_go.Server.Gate.{
  QueryLimits, Event, step, arrive, resume, release, take, release_held, arrives, releases, run,
  new_query_gate, normalize_query_limits,
}
use openvaultdb_go.Server.Gate.Counting.{running}
use openvaultdb_go.Server.Gate.Counting.Histories.{run-within}
use openvaultdb_go.Server.Cors.Answers.{Names, cors_middleware_iff}
use openvaultdb_go.Server.Cors.{
  CorsConfig, cors_middleware, allowed_origin, parse_cors_origins, scan_values, scan_pieces, holds,
}
use openvaultdb_go.Server.Cors.Scanning.{named}
use openvaultdb_go.Server.Cors.Origins.{parse_cors_origins_iff}
use openvaultdb_go.Server.CacheControl.{
  CacheFacts, CacheableFor, smallest_ttl, uncacheable, relational_cache_control,
  relational_cache_control-public,
}

abbrev limits : Limits
limits = record { max_source_rows = pos 3; max_source_bytes = pos 100; timeout = pos 0 }

abbrev guard : Guard
guard = record { limits = limits; rows = 0; bytes = 0; failure = none; stats = []; index = [] }

abbrev rows : List (ℕ × String)
rows = (40, "db.users") ∷ (70, "db.orders") ∷ []

charge_all_iff_example :
    ((charge_all rows guard).failure ≡ none) ↔ ((0 + length rows ≤ 3) × (0 + total rows ≤ 100))
unfolding HasBudget
charge_all_iff_example =
    charge_all_iff rows guard 3 100 (refl, refl, omega arith, omega arith) refl (omega arith)
      (omega arith, (omega arith, tt))

abbrev reads : List (Option String × Read ℕ)
reads = (none, record_read_ok 7) ∷ (none, read_end) ∷ []

collect_iff_example :
    ((collect (λ e. e) guard none reads ≡ none) ↔ OnlyRows reads)
    × ((collect (λ e. e) guard none reads ≡ some (ok (7 ∷ [])))
        ↔ ((guard.failure ≡ none) × (◌≡◌ {A = Option String} none none) × ReadsAll reads (7 ∷ [])))
collect_iff_example = collect_iff (λ e. e) guard none reads (7 ∷ [])

-- Without an end of the stream there is no answer yet.
collect-waits : collect {Row = ℕ} (λ e. e) guard none ((none, record_read_ok 7) ∷ []) ≡ none
unfolding collect drain
collect-waits = refl

abbrev reader : Reader
reader = record {
  database = "db";
  collection = "users";
  has_access_policies = false;
  rows = 0;
  finished = false;
}

-- Another leaf fails while the source is read: the row is withheld.
abbrev meanwhile : List Section
meanwhile = fails (refused "other") ∷ []

next-Sound_example :
    Sound {Row = ℕ} none
      (row 7 (some 20))
      meanwhile
      reader
      guard
      (next (pos 5) none (row 7 (some 20)) meanwhile [] reader guard)
next-Sound_example = next-Sound (pos 5) none (row 7 (some 20)) meanwhile [] reader guard

next-withheld :
    (next {Row = ℕ} (pos 5) none (row 7 (some 20)) meanwhile [] reader guard).2
    ≡ stopped (refused "other")
unfolding next others finish fail charge
next-withheld = refl

abbrev one_at_a_time : QueryLimits
one_at_a_time = record {
  timeout = pos 1;
  in_memory = pos 1;
  database = pos 1;
  queue_wait = pos 1;
  max_source_rows = pos 1;
  max_source_bytes = pos 1;
  join_engines = [];
}

abbrev busy : List Event
busy =
    arrives false "in-memory"
    ∷ arrives false "in-memory"
    ∷ arrives false "database"
    ∷ releases 0
    ∷ releases 0
    ∷ []

run-within_example :
    (0 ≡ running "in-memory" (run busy (new_query_gate one_at_a_time)).releases) × (0 ≤ 1)
unfolding run step arrive resume release take release_held new_query_gate lookup insert
run-within_example =
    run-within one_at_a_time busy "in-memory" (record { capacity = 1; held = 0 }) refl

abbrev sales : CacheFacts
sales = record { ttl = pos 60000000000; has_access_policies = false; no_retention = false }

relational_cache_control-public_example :
    (true ≡ true)
    × (false ≡ false)
    × (◌≡◌ {A = String} "GET" "GET")
    × ((sales ∷ []) ≢ [])
    × All (CacheableFor 60) (sales ∷ [])
unfolding relational_cache_control smallest_ttl uncacheable
relational_cache_control-public_example =
    relational_cache_control-public true false "GET" (sales ∷ []) 60 refl

parse_cors_origins_iff_example :
    (allowed_origin (parse_cors_origins ("https://a.org, https://b.org" ∷ [])) "https://b.org" ≢ "")
    ↔ ((◌≢◌ {A = String} "https://b.org" "")
        × (Memᴰ "*" (named ("https://a.org, https://b.org" ∷ []))
            ⊎ Memᴰ "https://b.org" (named ("https://a.org, https://b.org" ∷ []))))
parse_cors_origins_iff_example =
    parse_cors_origins_iff ("https://a.org, https://b.org" ∷ []) "https://b.org"

allowed-b :
    allowed_origin (parse_cors_origins ("https://a.org, https://b.org" ∷ [])) "https://b.org"
    ≡ "https://b.org"
unfolding parse_cors_origins allowed_origin scan_values scan_pieces split trim_space holds
allowed-b = refl

abbrev two_origins : CorsConfig
two_origins = record {
  allow_headers = [];
  expose_headers = [];
  allow_all = false;
  exact = "https://a.org" ∷ "https://b.org" ∷ [];
}

cors_middleware_iff_example :
    ((cors_middleware (some two_origins) "OPTIONS" "https://b.org").allow_origin
      ≡ some "https://b.org")
    ↔ ((◌≢◌ {A = String} "https://b.org" "")
        × (c : CorsConfig) × (some two_origins ≡ some c)
        × Names c "https://b.org" "https://b.org")
cors_middleware_iff_example =
    cors_middleware_iff (some two_origins) "OPTIONS" "https://b.org" "https://b.org"

middleware-b :
    (cors_middleware (some two_origins) "OPTIONS" "https://b.org").allow_origin
    ≡ some "https://b.org"
unfolding cors_middleware allowed_origin holds
middleware-b = refl

normalized-engines : (normalize_query_limits one_at_a_time).join_engines ≡ "sqlite" ∷ "ingitdb" ∷ []
unfolding normalize_query_limits
normalized-engines = refl
