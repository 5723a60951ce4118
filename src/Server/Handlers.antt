-- ===== src/Server/Handlers.antt =====
-- server/server.go: the middleware of the server, and the writer that keeps the status.
use d_utils.Base.{
  Keyed, nat_key, ℕ, suc, ◌≡◌, refl, Bool, true, false, not, ◌||◌, List, [], ◌∷◌, ◌++◌, Option,
  none, some, if◌then◌else◌,
}
use d_utils.Base.Dict.{Dict, lookup, insert}
use d_utils.Base.Text.{Text, codes, trim_suffix, text_key}
use d_utils.Base.Contains.{contains}

-- `trimSuffix`: the path that the next handler sees.
abbrev pub trimmed_path : Text → Text
trimmed_path path = trim_suffix (codes "/") (trim_suffix (codes "//") path)

-- `responseWriter`: the code that it keeps, and the one that net/http has sent, which is the first.
pub record ResponseWriter : Type 0 where
  pub status_code : ℕ
  pub sent : Option ℕ

abbrev pub new_response_writer : ResponseWriter
new_response_writer = record { status_code = 200; sent = none }

-- `WriteHeader`
unfoldable pub write_header : ResponseWriter → ℕ → ResponseWriter
write_header w code = record {
  status_code = code;
  sent = elim (w.sent) [ none ↦ some code | some first ↦ some first ];
}

-- What a handler does with the writer.
unfoldable pub write_headers : ResponseWriter → List ℕ → ResponseWriter
write_headers w [] = w
write_headers w (code ∷ later) = write_headers (write_header w code) later

-- The counters of `prometheusMiddleware`, by status and by path.
pub record Counters : Type 0 where
  pub response_status : Dict ℕ ℕ
  pub total_requests : Dict Text ℕ

abbrev pub count_up {ℓ} : {K : Type ℓ} → ⦃e : Keyed K⦄ → K → Dict K ℕ → Dict K ℕ
count_up k m = insert k (elim (lookup k m) [ none ↦ 1 | some n ↦ suc n ]) m

-- `prometheusMiddleware`, behind a handler that has written the status codes; the timers are left out.
unfoldable pub prometheus_middleware : Counters → Text → List ℕ → Counters
prometheus_middleware m path codes_written = record {
  response_status =
      count_up (write_headers new_response_writer codes_written).status_code m.response_status;
  total_requests = count_up path m.total_requests;
}

-- The header fields that `brotliMiddleware` reads and writes.
pub record Fields : Type 0 where
  pub accept_encoding : Text
  pub range : Text
  pub content_encoding : Text

abbrev is_empty : Text → Bool
is_empty [] = true
is_empty (c ∷ s) = false

-- Whether `brotliMiddleware` compresses the response to a request.
unfoldable pub compresses : Fields → Bool
compresses request =
    if not (contains request.accept_encoding (codes "br"))
    then false
    else not (not (is_empty request.range) || not (is_empty request.content_encoding))

-- The status that is counted is that of the last call, and the one that is sent that of the first.
pub write_headers_lem :
    (first last : ℕ) (between : List ℕ)
    → let w = write_headers new_response_writer (first ∷ (between ++ (last ∷ []))) in
      (w.status_code ≡ last) × (w.sent ≡ some first)
unfolding write_headers write_header
write_headers_lem first last between = rest between (write_header new_response_writer first) refl
  where
    rest :
        (codes : List ℕ) (w : ResponseWriter)
        → w.sent ≡ some first
        → let w' = write_headers w (codes ++ (last ∷ [])) in
          (w'.status_code ≡ last) × (w'.sent ≡ some first)
    rest [] w e = (refl, (rw e refl))
    rest (code ∷ later) w e = rest later (write_header w code) (rw e refl)
