-- ===== src/Server/Options.antt =====
-- server/server.go: what the options of `NewServer` amount to.
use d_utils.Base.{
  string_key, ℕ, suc, ◌≤◌, ◌≡◌, refl, sym, ◌∙◌, ◌≢◌, Bool, true, false, List, [], ◌∷◌, ◌++◌, Option,
  none, some, arith, Bool-cases, Option-cases, ◌↔◌, inl, inr, ◌⊎◌, ◌&&◌, ◌||◌,
}
use mathlib.Core.Path.{ap, subst}
use mathlib.Core.List.{append_assoc, append-nil}
use d_utils.Base.Int.{ℤ, pos, ◌≤ℤ◌, ◌<ℤ◌}
use d_utils.Base.Outcome.{returns, panics}
use d_utils.Server.{
  ServerConfig, ServerOption, with_brotli, Middleware, with_middleware, brotli_level_of, apply,
  apply_all, default_config, validate_config, base_middleware, setup_middleware, new_server,
  ServerError, ServerHttp, no_logger, custom_all, brotli, gzip, Router, Route, takes_all,
  setup_default_routes,
}

brotli_level_lem :
    (level : Option ℤ) → (pos 1 ≤ℤ brotli_level_of level) × (brotli_level_of level ≤ℤ pos 11)
unfolding brotli_level_of
brotli_level_lem none = (omega arith, omega arith)
brotli_level_lem (some level) = (ground arith, ground arith)

module _ {ℓ} {M : Type ℓ} where
  -- The Brotli level is one that the compressor has.
  abbrev pub HasLevel : ServerConfig M → Type 0
  HasLevel c = (pos 1 ≤ℤ c.brotli_level) × (c.brotli_level ≤ℤ pos 11)

  apply-HasLevel : (c : ServerConfig M) (opt : ServerOption M) → HasLevel c → HasLevel (apply c opt)
  unfolding apply
  apply-HasLevel c (with_brotli level) h = brotli_level_lem level
  apply-HasLevel c opt h = ground arith

  apply_all-HasLevel :
      (c : ServerConfig M) (opts : List (ServerOption M)) → HasLevel c → HasLevel (apply_all c opts)
  unfolding apply_all
  apply_all-HasLevel c [] h = h
  apply_all-HasLevel c (opt ∷ opts) h =
      apply_all-HasLevel (apply c opt) opts (apply-HasLevel c opt h)

  -- A configuration that passes the validation.
  pub record IsReady (c : ServerConfig M) : Type 0 where
    pub named : c.addr ≢ ""
    pub reads : pos 0 <ℤ c.read_timeout
    pub writes : pos 0 <ℤ c.write_timeout
    pub accepts : pos 0 <ℤ c.max_request_size
    pub times_out : pos 0 <ℤ c.timeout_duration
    pub has_level : HasLevel c

  validate_config-IsReady : (c : ServerConfig M) → HasLevel c → validate_config c ≡ none → IsReady c
  unfolding validate_config
  validate_config-IsReady c h e = ground (arith, string_key.same_key_iff c.addr "")

  -- The caller's middleware of an option, and of a list of them in their order.
  abbrev pub custom_from : ServerOption M → List M
  custom_from (with_middleware ms) = ms
  custom_from _ = []

  pub custom_of : List (ServerOption M) → List M
  custom_of [] = []
  custom_of (opt ∷ opts) = custom_from opt ++ custom_of opts

  apply-custom_from :
      (c : ServerConfig M) (opt : ServerOption M)
      → (apply c opt).custom_middleware ≡ c.custom_middleware ++ custom_from opt
  unfolding apply
  apply-custom_from c (with_middleware ms) = refl
  apply-custom_from c opt = ground (arith, append-nil c.custom_middleware)

  apply_all-custom_of :
      (c : ServerConfig M) (opts : List (ServerOption M))
      → (apply_all c opts).custom_middleware ≡ c.custom_middleware ++ custom_of opts
  unfolding apply_all custom_of
  apply_all-custom_of c [] = sym (append-nil c.custom_middleware)
  apply_all-custom_of c (opt ∷ opts) =
      apply_all-custom_of (apply c opt) opts
      ∙ ap (λ ms. ms ++ custom_of opts) (apply-custom_from c opt)
      ∙ append_assoc c.custom_middleware (custom_from opt) (custom_of opts)

  -- How many of the middleware compress.
  pub compressions : List (Middleware M) → ℕ
  compressions [] = 0
  compressions (brotli ∷ ms) = suc (compressions ms)
  compressions (gzip ∷ ms) = suc (compressions ms)
  compressions (_ ∷ ms) = compressions ms

  compressions_custom : (ms : List M) → compressions (custom_all ms) ≡ 0
  unfolding compressions
  compressions_custom [] = refl
  compressions_custom (m ∷ ms) = compressions_custom ms

  compressions_base :
      (c : ServerConfig M) (ms : List M) → compressions (base_middleware c ++ custom_all ms) ≤ 1
  unfolding compressions base_middleware
  compressions_base c ms = ground (arith, compressions_custom ms)

  validate_config-none : (c : ServerConfig M) → IsReady c → validate_config c ≡ none
  unfolding validate_config
  validate_config-none c r = ground (arith, r.named, string_key.same_key_iff c.addr "")

  -- The router takes every one of the routes, given the ones before it.
  abbrev pub TakesAll : Router M → List (Middleware M) → List Route → List Route → Type 0
  TakesAll router chain made rs =
      (before after : List Route) (r : Route)
      → rs ≡ before ++ (r ∷ after)
      → router.takes chain (made ++ before) r ≡ true

  TakesAll-cons :
      (router : Router M) (chain : List (Middleware M)) (made : List Route) (x : Route)
      (rs : List Route)
      → router.takes chain made x ≡ true
      → TakesAll router chain (made ++ (x ∷ [])) rs
      → TakesAll router chain made (x ∷ rs)
  TakesAll-cons router chain made x rs first rest [] after r e =
      let same : x ≡ r = cc e in
      ap (λ z. router.takes chain z r) (append-nil made)
      ∙ subst (λ z. router.takes chain made z ≡ true) same first
  TakesAll-cons router chain made x rs first rest (b ∷ before) after r e =
      let same : x ≡ b = cc e in
      let left : rs ≡ before ++ (r ∷ after) = cc e in
      subst (λ z. router.takes chain (made ++ (z ∷ before)) r ≡ true) same
        (ap (λ z. router.takes chain z r) (sym (append_assoc made (x ∷ []) before))
          ∙ rest before after r left)

  takes_all-TakesAll :
      (router : Router M) (chain : List (Middleware M)) (made rs : List Route)
      → takes_all router chain made rs ≡ true
      → TakesAll router chain made rs
  unfolding takes_all
  takes_all-TakesAll router chain made [] h [] after r e = absurd (cc e)
  takes_all-TakesAll router chain made [] h (b ∷ before) after r e = absurd (cc e)
  takes_all-TakesAll router chain made (x ∷ rs) h before after r e =
      let parts : (router.takes chain made x ≡ true)
          × (takes_all router chain (made ++ (x ∷ [])) rs ≡ true) =
        ground arith in
      TakesAll-cons router chain made x rs parts.0
        (takes_all-TakesAll router chain (made ++ (x ∷ [])) rs parts.1) before after r e

  TakesAll-takes_all :
      (router : Router M) (chain : List (Middleware M)) (made rs : List Route)
      → TakesAll router chain made rs
      → takes_all router chain made rs ≡ true
  unfolding takes_all
  TakesAll-takes_all router chain made [] h = refl
  TakesAll-takes_all router chain made (x ∷ rs) h =
      let first : router.takes chain made x ≡ true =
        ap (λ z. router.takes chain z x) (sym (append-nil made)) ∙ h [] rs x refl in
      let rest = TakesAll-takes_all router chain (made ++ (x ∷ [])) rs (λ before after r e.
        ap (λ z. router.takes chain z r) (append_assoc made (x ∷ []) before)
        ∙ h (x ∷ before) after r (ap (λ z. x ∷ z) e)) in
      rw (first, rest) refl

  -- No panic is to be feared of the libraries: the metrics are not registered yet, if they are on, and
  -- the router takes the routes of the configuration one after the other.
  abbrev pub IsWelcome : Router M → Bool → ServerConfig M → Type 0
  IsWelcome router registered c =
      (c.enable_metrics ≡ true → registered ≡ false)
      × TakesAll router (setup_middleware c) [] (setup_default_routes c)

  -- What `NewServer` asks of its caller.
  abbrev pub IsAccepted : Bool → List (ServerOption M) → Type 0
  IsAccepted has_logger opts = (has_logger ≡ true) × IsReady (apply_all default_config opts)

  abbrev server_of : ServerConfig M → ServerHttp M
  server_of c = record { config = c; chain = setup_middleware c; routes = setup_default_routes c }

  abbrev Outcomes : Router M → Bool → Bool → List (ServerOption M) → Type ℓ
  Outcomes router registered has_logger opts =
      let c = apply_all default_config opts in
      let result = new_server router registered has_logger opts in
      ((¬ IsAccepted has_logger opts)
        × ((e : ServerError) × (result ≡ (registered, returns (some e, none)))))
      ⊎ (IsAccepted has_logger opts
          × ((¬ IsWelcome router registered c)
              × (result ≡ (registered || c.enable_metrics, panics))))
      ⊎ (IsAccepted has_logger opts
          × (IsWelcome router registered c
              × ((s : ServerHttp M) × (result
                    ≡ (registered || c.enable_metrics, returns (none, some s))))))

  Outcomes-ready :
      (router : Router M) (registered : Bool) (opts : List (ServerOption M))
      → validate_config (apply_all default_config opts) ≡ none
      → Outcomes router registered true opts
  unfolding new_server
  Outcomes-ready router registered opts passes =
      let c = apply_all default_config opts in
      let level = apply_all-HasLevel default_config opts (omega arith, omega arith) in
      let accepted : IsAccepted true opts = (refl, validate_config-IsReady c level passes) in
      elim (Bool-cases (c.enable_metrics && registered)) [
        | inl twice ↦
            inr (inl (accepted, ((λ w. ground (arith, w.0, twice)), rw (passes, twice) refl)))
        | inr once ↦
            elim (Bool-cases (takes_all router (setup_middleware c) [] (setup_default_routes c))) [
              | inl taken ↦ inr (
                  inr (
                    accepted,
                    (
                      (
                        (λ on. ground (arith, on, once)),
                        takes_all-TakesAll router (setup_middleware c) [] _ taken,
                      ),
                      (server_of c, rw (passes, once, taken) refl),
                    ),
                  ))
              | inr refused ↦ inr (
                  inl (
                    accepted,
                    (
                      (λ w.
                          absurd (
                            cc (refused, TakesAll-takes_all router (setup_middleware c) [] _ w.1))),
                      rw (passes, once, refused) refl,
                    ),
                  ))
            ]
      ]

  outcomes :
      (router : Router M) (registered has_logger : Bool) (opts : List (ServerOption M))
      → Outcomes router registered has_logger opts
  unfolding new_server
  outcomes router registered false opts = inl ((λ a. absurd (cc a.0)), (no_logger, refl))
  outcomes router registered true opts =
      elim (Option-cases (validate_config (apply_all default_config opts))) [
        | inl passes ↦ Outcomes-ready router registered opts passes
        | inr (e, fails) ↦ inl (
          (λ a. absurd (cc (fails, validate_config-none (apply_all default_config opts) a.1))),
          (e, rw fails refl),
        )
      ]

  -- `NewServer` returns an error exactly when it is not given a logger or the options do not leave a
  -- configuration with an address, positive timeouts and a positive request size; the Brotli level of a
  -- configuration that passes is one from 1 to 11, whatever level was asked for. Otherwise it returns a
  -- server exactly when the metrics are off or not registered before the call, and the router takes each
  -- of the default routes behind the ones before it; it panics exactly when one of the two is missing.
  -- With the metrics on they are registered behind every call that returns no error.
  pub new_server-IsReady :
      (router : Router M) (registered has_logger : Bool) (opts : List (ServerOption M))
      → let c = apply_all default_config opts in
        let result = new_server router registered has_logger opts in
        (((e : ServerError) × (result.1 ≡ returns (some e, none))) ↔ (¬ IsAccepted has_logger opts))
        × (((s : ServerHttp M) × (result.1 ≡ returns (none, some s)))
            ↔ (IsAccepted has_logger opts × IsWelcome router registered c))
        × ((result.1 ≡ panics) ↔ (IsAccepted has_logger opts × (¬ IsWelcome router registered c)))
        × (IsAccepted has_logger opts → c.enable_metrics ≡ true → result.0 ≡ true)
  new_server-IsReady router registered has_logger opts =
      elim (outcomes router registered has_logger opts) [
        | inl (unfit, (e, fails)) ↦ (
          ((λ x. unfit), (λ x. (e, ap (λ z. z.1) fails))),
          ((λ x. absurd (cc (fails, x.1))), (λ x. absurd (unfit x.0))),
          ((λ x. absurd (cc (fails, x))), (λ x. absurd (unfit x.0))),
          (λ a on. absurd (unfit a)),
        )
        | inr (inl (fit, (unwelcome, dies))) ↦ (
          ((λ x. absurd (cc (dies, x.1))), (λ x. absurd (x fit))),
          ((λ x. absurd (cc (dies, x.1))), (λ x. absurd (unwelcome x.1))),
          ((λ x. (fit, unwelcome)), (λ x. ap (λ z. z.1) dies)),
          (λ a on. ap (λ z. z.0) dies ∙ rw on (ground arith)),
        )
        | inr (inr (fit, (welcome, (s, works)))) ↦ (
          ((λ x. absurd (cc (works, x.1))), (λ x. absurd (x fit))),
          ((λ x. (fit, welcome)), (λ x. (s, ap (λ z. z.1) works))),
          ((λ x. absurd (cc (works, x))), (λ x. absurd (x.1 welcome))),
          (λ a on. ap (λ z. z.0) works ∙ rw on (ground arith)),
        )
      ]

  -- The middleware that `NewServer` sets up is the base middleware of its configuration followed by the
  -- caller's, in the order of the options that add it. Of the two compressions it has one at most.
  pub setup_middleware-custom_of :
      (opts : List (ServerOption M))
      → let c = apply_all default_config opts in
        (setup_middleware c ≡ base_middleware c ++ custom_all (custom_of opts))
        × (compressions (setup_middleware c) ≤ 1)
  unfolding setup_middleware
  setup_middleware-custom_of opts =
      let c = apply_all default_config opts in
      let e : setup_middleware c ≡ base_middleware c ++ custom_all (custom_of opts) =
        ap (λ ms. base_middleware c ++ custom_all ms) (apply_all-custom_of default_config opts) in
      (e, rw e (compressions_base c (custom_of opts)))
