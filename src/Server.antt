-- ===== src/Server.antt =====
-- server/config.go and server/server.go: the options of the HTTP server, their validation, and the chain
-- of middleware and the routes that `NewServer` sets up. The router and the metrics belong to libraries:
-- a middleware and a route stand for themselves, what chi takes without a panic is a parameter, and so
-- is whether the registry of Prometheus has the metrics before the call. `M` is the type of the caller's
-- own middleware. Of the CORS options the fields that the code sets are modelled. The options are the values, so that a CORS
-- value of the caller, which the code changes in place, is not followed any further.
pub mod Options
pub mod Handlers
mod Tests
use d_utils.Base.{
  String, string_key, ◌==◌, ℕ, ◌*◌, Bool, true, false, ◌&&◌, ◌||◌, List, [], ◌∷◌, ◌++◌, Option,
  none, some, if◌then◌else◌,
}
use d_utils.Base.Int.{ℤ, pos, ltb_ℤ, leb_ℤ}
use d_utils.Base.Outcome.{Outcome, returns, panics}
use d_utils.Base.GoTime.{Duration, second}

pub record CorsOptions : Type 0 where
  pub allowed_origins : List String
  pub allowed_methods : List String
  pub allowed_headers : List String
  pub exposed_headers : List String
  pub allow_credentials : Bool

pub record ServerConfig {ℓ} (M : Type ℓ) : Type ℓ where
  pub addr : String
  pub read_timeout : Duration
  pub write_timeout : Duration
  pub max_request_size : ℤ
  pub timeout_duration : Duration
  pub cors_options : Option CorsOptions
  pub enable_metrics : Bool
  pub enable_logger : Bool
  pub custom_middleware : List M
  pub enable_profiling : Bool
  pub enable_gzip : Bool
  pub enable_brotli : Bool
  pub brotli_level : ℤ
  pub enable_health_check : Bool
  pub health_check_path : String
  pub shutdown_timeout : Duration
  pub idle_timeout : Duration
  pub keep_alive_timeout : Duration
  pub max_header_bytes : ℤ

-- The options by the function that makes them; an optional argument is none where it is left out.
pub data ServerOption {ℓ} (M : Type ℓ) : Type ℓ where
  with_addr : String → ServerOption M
  with_timeouts : Duration → Duration → ServerOption M
  with_request_timeout with_shutdown_timeout with_idle_timeout with_keep_alive_timeout :
      Duration → ServerOption M
  with_max_request_size with_max_header_bytes : ℤ → ServerOption M
  with_cors : Option CorsOptions → ServerOption M
  with_metrics with_logger with_cors_credentials with_profiling with_gzip : ServerOption M
  with_middleware : List M → ServerOption M
  with_cors_domains with_cors_methods with_cors_headers : List String → ServerOption M
  with_brotli : Option ℤ → ServerOption M
  with_health_check : Option String → ServerOption M

abbrev pub no_cors : CorsOptions
no_cors = record {
  allowed_origins = [];
  allowed_methods = [];
  allowed_headers = [];
  exposed_headers = [];
  allow_credentials = false;
}

-- `if c.corsOptions == nil { c.corsOptions = &cors.Options{} }`
abbrev pub cors_of : Option CorsOptions → CorsOptions
cors_of none = no_cors
cors_of (some o) = o

abbrev pub default_brotli_level : ℤ
default_brotli_level = pos 4

-- The level of `WithBrotli`.
unfoldable pub brotli_level_of : Option ℤ → ℤ
brotli_level_of none = default_brotli_level
brotli_level_of (some level) =
    if ltb_ℤ level (pos 1) then pos 1 else if ltb_ℤ (pos 11) level then pos 11 else level

abbrev pub path_of : String → Option String → String
path_of old none = old
path_of old (some path) = if path == "" then old else path

pub data ServerError : Type 0 where
  no_logger empty_addr read_timeout write_timeout max_request_size timeout_duration : ServerError

pub data Middleware {ℓ} (M : Type ℓ) : Type ℓ where
  request_id real_ip recoverer trim_suffix logger metrics brotli gzip : Middleware M
  timeout : Duration → Middleware M
  request_size : ℤ → Middleware M
  cors : CorsOptions → Middleware M
  custom : M → Middleware M

-- `Mount` and `Get` with their pattern.
pub data Route : Type 0 where
  mount get : String → Route

pub record ServerHttp {ℓ} (M : Type ℓ) : Type ℓ where
  pub config : ServerConfig M
  pub chain : List (Middleware M)
  pub routes : List Route

-- What `NewServer` relies on in chi: whether a router with the middleware and the earlier routes, in
-- their order, takes a route. It panics on the others, for one on a pattern that does not begin with a
-- slash; the first route of a router also calls the middleware.
pub record Router {ℓ} (M : Type ℓ) : Type ℓ where
  pub takes : List (Middleware M) → List Route → Route → Bool

abbrev pub route : Bool → List Route → List Route
route b rs = if b then rs else []

module _ {ℓ} {M : Type ℓ} where
  -- The configuration that `NewServer` starts from.
  abbrev pub default_config : ServerConfig M
  default_config = record {
    addr = ":8080";
    read_timeout = pos (5 * second);
    write_timeout = pos (5 * second);
    max_request_size = pos (10 * 1048576);
    timeout_duration = pos (60 * second);
    cors_options = some (record {
      allowed_origins = "*" ∷ [];
      allowed_methods = "GET" ∷ "POST" ∷ "PUT" ∷ "DELETE" ∷ "OPTIONS" ∷ [];
      allowed_headers = "*" ∷ [];
      exposed_headers = "Link" ∷ [];
      allow_credentials = true;
    });
    enable_metrics = true;
    enable_logger = true;
    custom_middleware = [];
    enable_profiling = false;
    enable_gzip = false;
    enable_brotli = false;
    brotli_level = default_brotli_level;
    enable_health_check = true;
    health_check_path = "/health";
    shutdown_timeout = pos (30 * second);
    idle_timeout = pos (120 * second);
    keep_alive_timeout = pos (60 * second);
    max_header_bytes = pos 1048576;
  }

  unfoldable pub apply : ServerConfig M → ServerOption M → ServerConfig M
  apply c (with_addr addr) = record c { addr = addr }
  apply c (with_timeouts read write) = record c { read_timeout = read; write_timeout = write }
  apply c (with_request_timeout d) = record c { timeout_duration = d }
  apply c (with_shutdown_timeout d) = record c { shutdown_timeout = d }
  apply c (with_idle_timeout d) = record c { idle_timeout = d }
  apply c (with_keep_alive_timeout d) = record c { keep_alive_timeout = d }
  apply c (with_max_request_size size) = record c { max_request_size = size }
  apply c (with_max_header_bytes bytes) = record c { max_header_bytes = bytes }
  apply c (with_cors options) = record c { cors_options = options }
  apply c with_metrics = record c { enable_metrics = true }
  apply c with_logger = record c { enable_logger = true }
  apply c with_cors_credentials = record c {
    cors_options = some (record (cors_of c.cors_options) { allow_credentials = true });
  }
  apply c with_profiling = record c { enable_profiling = true }
  apply c with_gzip = record c { enable_gzip = true }
  apply c (with_middleware ms) = record c { custom_middleware = c.custom_middleware ++ ms }
  apply c (with_cors_domains domains) = record c {
    cors_options = some (record (cors_of c.cors_options) { allowed_origins = domains });
  }
  apply c (with_cors_methods methods) = record c {
    cors_options = some (record (cors_of c.cors_options) { allowed_methods = methods });
  }
  apply c (with_cors_headers headers) = record c {
    cors_options = some (record (cors_of c.cors_options) { allowed_headers = headers });
  }
  apply c (with_brotli level) = record c {
    enable_brotli = true;
    brotli_level = brotli_level_of level;
  }
  apply c (with_health_check path) = record c {
    enable_health_check = true;
    health_check_path = path_of c.health_check_path path;
  }

  unfoldable pub apply_all : ServerConfig M → List (ServerOption M) → ServerConfig M
  apply_all c [] = c
  apply_all c (opt ∷ opts) = apply_all (apply c opt) opts

  unfoldable pub validate_config : ServerConfig M → Option ServerError
  validate_config c =
      if c.addr == ""
      then some empty_addr
      else if leb_ℤ c.read_timeout (pos 0)
      then some read_timeout
      else if leb_ℤ c.write_timeout (pos 0)
      then some write_timeout
      else if leb_ℤ c.max_request_size (pos 0)
      then some max_request_size
      else if leb_ℤ c.timeout_duration (pos 0)
      then some timeout_duration
      else none

  abbrev pub when : Bool → List (Middleware M) → List (Middleware M)
  when b ms = if b then ms else []

  abbrev pub custom_all : List M → List (Middleware M)
  custom_all [] = []
  custom_all (m ∷ ms) = custom m ∷ custom_all ms

  abbrev pub cors_all : Option CorsOptions → List (Middleware M)
  cors_all none = []
  cors_all (some options) = cors options ∷ []

  unfoldable pub base_middleware : ServerConfig M → List (Middleware M)
  base_middleware c =
      (request_id
        ∷ real_ip
        ∷ recoverer
        ∷ timeout c.timeout_duration
        ∷ request_size c.max_request_size
        ∷ trim_suffix
        ∷ [])
      ++ when c.enable_logger (logger ∷ [])
      ++ when c.enable_metrics (metrics ∷ [])
      ++ (if c.enable_brotli then brotli ∷ [] else when c.enable_gzip (gzip ∷ []))
      ++ cors_all c.cors_options

  unfoldable pub setup_middleware : ServerConfig M → List (Middleware M)
  setup_middleware c = base_middleware c ++ custom_all c.custom_middleware

  unfoldable pub setup_default_routes : ServerConfig M → List Route
  setup_default_routes c =
      route c.enable_metrics (mount "/metrics" ∷ [])
      ++ route c.enable_health_check (get c.health_check_path ∷ [])
      ++ route c.enable_profiling (
          mount "/debug/pprof"
          ∷ get "/debug/pprof/cmdline"
          ∷ get "/debug/pprof/profile"
          ∷ get "/debug/pprof/symbol"
          ∷ get "/debug/pprof/trace"
          ∷ get "/debug/pprof/goroutine"
          ∷ get "/debug/pprof/heap"
          ∷ get "/debug/pprof/threadcreate"
          ∷ get "/debug/pprof/block"
          ∷ [])

  -- Whether the router takes the routes one by one, behind the ones that it has.
  unfoldable pub takes_all : Router M → List (Middleware M) → List Route → List Route → Bool
  takes_all router chain made [] = true
  takes_all router chain made (r ∷ rs) =
      router.takes chain made r && takes_all router chain (made ++ (r ∷ [])) rs

  -- `NewServer`: whether the default registry of Prometheus has one of the metrics behind the call, and
  -- the server or the error. `registered` is whether it has one before, on which `MustRegister` panics;
  -- `has_logger` is `logger != nil`.
  unfoldable pub new_server :
      Router M
      → Bool
      → Bool
      → List (ServerOption M)
      → Bool × Outcome (Option ServerError × Option (ServerHttp M))
  new_server router registered has_logger opts =
      let c = apply_all default_config opts in
      let s : ServerHttp M = record {
        config = c;
        chain = setup_middleware c;
        routes = setup_default_routes c;
      } in
      if has_logger
      then elim (validate_config c) [
        | some e ↦ (registered, returns (some e, none))
        | none ↦ (
          registered || c.enable_metrics,
          if c.enable_metrics && registered
              then panics
              else if takes_all router s.chain [] s.routes
              then returns (none, some s)
              else panics,
        )
      ]
      else (registered, returns (some no_logger, none))
