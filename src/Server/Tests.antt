-- ===== src/Server/Tests.antt =====
-- server/server.go: a server with a few options, and the theorems at it.
use d_utils.Base.{ℕ, nat_key, ◌≡◌, ◌↔◌, refl, Bool, true, false, ◌==◌, List, [], ◌∷◌, none, some}
use d_utils.Base.Int.{pos}
use d_utils.Base.Dict.{lookup, insert}
use d_utils.Base.Text.{codes, trim_suffix}
use d_utils.Base.Contains.{contains}
use d_utils.Server.Handlers.{
  trimmed_path, compresses, prometheus_middleware, write_headers, write_header,
}
use d_utils.Server.{
  ServerOption, with_middleware, with_gzip, with_brotli, with_addr, apply, apply_all,
  brotli_level_of, default_config, validate_config, empty_addr, new_server, Router, mount, get,
  ServerError, ServerHttp, with_health_check, takes_all, setup_default_routes, setup_middleware,
}
use d_utils.Base.Outcome.{returns, panics}
use d_utils.Server.Options.{IsAccepted, IsWelcome, new_server-IsReady}

abbrev chosen : List (ServerOption ℕ)
chosen =
    with_middleware (7 ∷ [])
    ∷ with_gzip
    ∷ with_brotli (some (pos 40))
    ∷ with_middleware (8 ∷ [])
    ∷ []

top_level : (apply_all default_config chosen).brotli_level ≡ pos 11
unfolding apply_all apply brotli_level_of
top_level = refl

abbrev is_slashed : List ℕ → Bool
is_slashed [] = false
is_slashed (c ∷ cs) = c == 47

-- A router that takes the patterns with a slash at their begin.
abbrev chi : Router ℕ
chi = record {
  takes = λ chain made r. elim r [ mount p ↦ is_slashed (codes p) | get p ↦ is_slashed (codes p) ];
}

nameless : (new_server chi false true (with_addr "" ∷ [])).1 ≡ returns (some empty_addr, none)
unfolding new_server apply_all apply validate_config
nameless = refl

-- A pattern for the health check that has no slash.
slashless : (new_server chi false true (with_health_check (some "health") ∷ [])).1 ≡ panics
unfolding new_server apply_all apply validate_config takes_all setup_default_routes setup_middleware
slashless = refl

-- Two servers with metrics.
second_server : (new_server chi (new_server chi false true chosen).0 true chosen).1 ≡ panics
unfolding new_server apply_all apply validate_config brotli_level_of takes_all setup_default_routes
second_server = refl

new_server-IsReady_example :
    let c = apply_all default_config chosen in
    let result = new_server chi false true chosen in
    (((e : ServerError) × (result.1 ≡ returns (some e, none))) ↔ (¬ IsAccepted true chosen))
    × (((s : ServerHttp ℕ) × (result.1 ≡ returns (none, some s)))
        ↔ (IsAccepted true chosen × IsWelcome chi false c))
    × ((result.1 ≡ panics) ↔ (IsAccepted true chosen × (¬ IsWelcome chi false c)))
    × (IsAccepted true chosen → c.enable_metrics ≡ true → result.0 ≡ true)
new_server-IsReady_example = new_server-IsReady chi false true chosen

-- A path loses two slashes at its end, and then one.
three_slashes : trimmed_path (codes "/items///") ≡ codes "/items"
unfolding trim_suffix
three_slashes = refl

-- A client that refuses Brotli is sent Brotli.
refused_brotli :
    compresses
      (record { accept_encoding = codes "gzip, br;q=0"; range = []; content_encoding = [] })
    ≡ true
unfolding compresses contains
refused_brotli = refl

-- The first status is sent, and the last one is counted.
two_statuses :
    lookup 200
      (prometheus_middleware
        (record { response_status = []; total_requests = [] })
        (codes "/")
        (404 ∷ (200 ∷ []))).response_status
    ≡ some 1
unfolding prometheus_middleware write_headers write_header insert lookup
two_statuses = refl
