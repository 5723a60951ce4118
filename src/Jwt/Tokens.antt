-- ===== src/Jwt/Tokens.antt =====
-- jwt/jwt.go: a token that is signed and sent back.
use d_utils.Base.{
  ◌≡◌, ◌≢◌, refl, sym, ap, ◌∙◌, Bool, true, false, Bool-cases, inl, inr, [], ◌∷◌, ◌++◌, nat_eqb,
  All, List-cases, arith, ◌⊎◌,
}
use mathlib.Core.Path.{subst}
use d_utils.Base.Int.{ℤ, pos, ◌≤ℤ◌}
use d_utils.Base.GoTime.{Time, Duration, add}
use d_utils.Base.Text.{
  Text, codes, split, split-append, split_one, Lacks, is_space, trim_space_plain,
}
use d_utils.Jwt.{
  JwtUser, ok, parsed, Signed, signed, unsigned, claims, Library, Environment, Headers, unix,
  to_lower, token_of, extract_token, bearer_in, decode_jwt_token, decode_request,
  sign_jwt_token_with_duration,
}

-- A token is a text without spaces that is not empty, and at a time at which its claims are valid the
-- key that it was signed with has it parsed.
pub record IsLawful {E : Type 0} (lib : Library E) : Type 0 where
  pub starts :
      (key : Text) (user : JwtUser) (token : Text) → lib.sign key user ≡ signed token → token ≢ []
  pub plain :
      (key : Text) (user : JwtUser) (token : Text)
      → lib.sign key user ≡ signed token
      → All (λ c. is_space c ≡ false) token
  pub parses :
      (key : Text) (user : JwtUser) (token : Text) (now : ℤ)
      → lib.sign key user ≡ signed token
      → user.issued_at ≤ℤ now
      → user.not_before ≤ℤ now
      → now ≤ℤ user.expires_at
      → lib.parse now key token ≡ parsed user true

plain-Lacks : (s : Text) → All (λ c. is_space c ≡ false) s → Lacks b' ' s
plain-Lacks [] h = tt
plain-Lacks (c ∷ s) h = (
  elim (Bool-cases (nat_eqb c b' ')) [
    | inl blank ↦
        let space : c ≡ b' ' = ground arith in
        absurd (cc (subst (λ d. is_space d ≡ false) space h.0))
    | inr other ↦ other
  ],
  plain-Lacks s h.1,
)

-- The token stands in the authorization header, behind `Bearer` or `Token` in any case, or, if there
-- is none, in the websocket header, behind a first protocol.
pub data Carries (token : Text) (h : Headers) : Type 0 where
  by_authorization :
      (scheme : Text)
      → Lacks b' ' scheme
      → (to_lower scheme ≡ codes "bearer") ⊎ (to_lower scheme ≡ codes "token")
      → h.authorization ≡ scheme ++ (b' ' ∷ token)
      → Carries token h
  by_websocket :
      (protocol : Text)
      → Lacks b' ' protocol
      → h.authorization ≡ []
      → h.websocket_protocol ≡ protocol ++ (b' ' ∷ token)
      → Carries token h

bearer_given :
    (h : Headers) (scheme s : Text)
    → h.authorization ≡ scheme ++ (b' ' ∷ s)
    → bearer_in h ≡ scheme ++ (b' ' ∷ s)
bearer_given h [] s e = rw e refl
bearer_given h (c ∷ scheme) s e = rw e refl

Signed-cases :
    {E : Type 0} (r : Signed E) → ((e : E) × (r ≡ unsigned e)) ⊎ ((t : Text) × (r ≡ signed t))
Signed-cases (unsigned e) = inl (e, refl)
Signed-cases (signed t) = inr (t, refl)

module _ {E : Type 0} where
  extract_token-split :
      (scheme token : Text)
      → extract_token {E = E} (scheme ++ (b' ' ∷ token))
        ≡ token_of (split b' ' (scheme ++ (b' ' ∷ token)))
  unfolding extract_token
  extract_token-split [] token = refl
  extract_token-split (c ∷ scheme) token = refl

  known_scheme :
      (scheme token : Text)
      → (to_lower scheme ≡ codes "bearer") ⊎ (to_lower scheme ≡ codes "token")
      → token_of {E = E} (scheme ∷ (token ∷ [])) ≡ ok token
  unfolding token_of
  known_scheme scheme token (inl bearer) = rw bearer refl
  known_scheme scheme token (inr plain) = rw plain refl

  extracted :
      (scheme token : Text)
      → Lacks b' ' scheme
      → Lacks b' ' token
      → (to_lower scheme ≡ codes "bearer") ⊎ (to_lower scheme ≡ codes "token")
      → extract_token {E = E} (scheme ++ (b' ' ∷ token)) ≡ ok token
  extracted scheme token ls lt known =
      extract_token-split scheme token
      ∙ ap token_of (
          split-append b' ' scheme token ls
          ∙ ap (λ parts. scheme ∷ parts) (split_one b' ' token lt))
      ∙ known_scheme scheme token known

  carried :
      (token : Text) (h : Headers)
      → All (λ c. is_space c ≡ false) token
      → Carries token h
      → extract_token {E = E} (bearer_in h) ≡ ok token
  carried token h plain (by_authorization scheme ls known e) =
      ap extract_token (bearer_given h scheme token e)
      ∙ extracted scheme token ls (plain-Lacks token plain) known
  carried token h plain (by_websocket protocol lp empty e) =
      let parts : split b' ' (protocol ++ (b' ' ∷ token)) ≡ protocol ∷ (token ∷ []) =
        split-append b' ' protocol token lp
        ∙ ap (λ ps. protocol ∷ ps) (split_one b' ' token (plain-Lacks token plain)) in
      rw (empty, e, parts, trim_space_plain token plain)
        (extracted (codes "bearer") token
          ((unfold to_lower in (refl, (refl, (refl, (refl, (refl, (refl, tt))))))))
          (plain-Lacks token plain) (inl (unfold to_lower in refl)))

  parsed_back :
      (lib : Library E) (env : Environment) (token : Text) (now : ℤ) (user : JwtUser)
      → env.secret_key ≢ []
      → token ≢ []
      → lib.parse now env.secret_key token ≡ parsed user true
      → decode_jwt_token lib env token now ≡ ok user
  unfolding decode_jwt_token
  parsed_back lib env token now user has_key some_token e = elim (List-cases env.secret_key) [
    | inl unset ↦ absurd (has_key unset)
    | inr (k, key, is_key) ↦ elim (List-cases token) [
      | inl nothing ↦ absurd (some_token nothing)
      | inr (c, text, is_text) ↦
          let there : lib.parse now (k ∷ key) (c ∷ text) ≡ parsed user true =
            ap (λ key'. lib.parse now key' (c ∷ text)) (sym is_key)
            ∙ ap (lib.parse now env.secret_key) (sym is_text)
            ∙ e in
          rw (is_text, decode_jwt_token, is_key, there) refl
    ]
  ]

  signed_as :
      (lib : Library E) (env : Environment) (user_id chat_id : ℤ) (is_admin : Bool)
      (duration : Duration) (now later : Time) (token : Text)
      → sign_jwt_token_with_duration lib env user_id chat_id is_admin duration now later ≡ ok token
      → lib.sign env.secret_key (claims lib env user_id chat_id is_admin duration now later)
        ≡ signed token
  unfolding sign_jwt_token_with_duration
  signed_as lib env user_id chat_id is_admin duration now later token fine =
      let user = claims lib env user_id chat_id is_admin duration now later in
      elim (List-cases env.secret_key) [
        | inl unset ↦ absurd (cc (rw (sign_jwt_token_with_duration, unset) at fine))
        | inr (k, key, is_key) ↦ elim (Signed-cases (lib.sign (k ∷ key) user)) [
          | inl (e, bad) ↦ absurd (cc (rw (sign_jwt_token_with_duration, is_key, bad) at fine))
          | inr (t, good) ↦
              let same : t ≡ token = cc (rw (sign_jwt_token_with_duration, is_key, good) at fine) in
              ap (λ key'. lib.sign key' user) is_key ∙ good ∙ ap signed same
        ]
      ]

  -- With a secret key in the environment and a lawful library: a token that is signed for a user, and
  -- that is sent back in one of the two headers at a time from the first reading of the clock of the
  -- signing on, and up to the expiration of the duration behind the second, is decoded to that user,
  -- without a session.
  pub sign-decode :
      (lib : Library E) (env : Environment) (user_id chat_id : ℤ) (is_admin : Bool)
      (duration : Duration) (now later : Time) (token : Text) (h : Headers) (at : ℤ)
      → IsLawful lib
      → env.secret_key ≢ []
      → sign_jwt_token_with_duration lib env user_id chat_id is_admin duration now later ≡ ok token
      → Carries token h
      → unix now ≤ℤ at
      → at ≤ℤ unix (add later duration)
      → (user : JwtUser) × (decode_request lib env h at ≡ ok user)
        × (user.user_id ≡ user_id)
        × (user.chat_id ≡ chat_id)
        × (user.is_admin ≡ is_admin)
        × (user.session_id ≡ pos 0)
        × (user.issuer ≡ env.app_url)
  unfolding decode_request
  sign-decode lib env user_id chat_id is_admin duration now later token h at law has_key fine there
        from till =
      let user = claims lib env user_id chat_id is_admin duration now later in
      let made = signed_as lib env user_id chat_id is_admin duration now later token fine in
      let found = carried token h (law.plain env.secret_key user token made) there in
      let back =
        parsed_back lib env token at user has_key (law.starts env.secret_key user token made)
          (law.parses env.secret_key user token at made from from till) in
      (user, rw (decode_request, found) back, refl, refl, refl, refl, refl)
