-- ===== src/Jwt.antt =====
-- jwt/jwt.go: tokens for users. The library golang-jwt, which signs and parses, is a parameter.
pub mod Tokens
mod Tests
use d_utils.Base.{
  ℕ, ◌+◌, ◌*◌, ◌/◌, Bool, true, false, ◌&&◌, ◌||◌, List, [], ◌∷◌, ◌++◌, Option, none, some, leb,
  nat_eqb, if◌then◌else◌,
}
use d_utils.Base.Int.{ℤ, pos, negsuc, ◌-ℤ◌}
use d_utils.Base.GoTime.{Time, Duration, add, second, unix_epoch}
use d_utils.Base.Text.{Text, text_eqb, codes, split, trim_space}

-- `JwtUser`, with the fields of `StandardClaims` that the code sets.
pub record JwtUser : Type 0 where
  pub issued_at : ℤ
  pub not_before : ℤ
  pub expires_at : ℤ
  pub issuer : Text
  pub subject : Text
  pub user_id : ℤ
  pub chat_id : ℤ
  pub session_id : ℤ
  pub is_admin : Bool

pub data Error (E : Type 0) : Type 0 where
  no_header incomplete_header unknown_format empty_token no_secret invalid_token : Error E
  parsing signing : E → Error E

pub data Result (E A : Type 0) : Type 0 where
  ok : A → Result E A
  fail : Error E → Result E A

-- What `jwt.ParseWithClaims` returns: claims with `token.Valid`, or an error.
pub data Parsed (E : Type 0) : Type 0 where
  parsed : JwtUser → Bool → Parsed E
  refused : E → Parsed E

pub data Signed (E : Type 0) : Type 0 where
  signed : Text → Signed E
  unsigned : E → Signed E

-- `SignedString` with HS256 and a key, and `ParseWithClaims` at a time, in seconds, with a key.
pub record Library (E : Type 0) : Type 0 where
  pub sign : Text → JwtUser → Signed E
  pub parse : ℤ → Text → Text → Parsed E

-- `JWT_SECRET_KEY` and `WEB_APP_URL`
pub record Environment : Type 0 where
  pub secret_key : Text
  pub app_url : Text

pub record Headers : Type 0 where
  pub authorization : Text
  pub websocket_protocol : Text

abbrev floor_div : ℤ → ℕ → ℤ
floor_div (pos n) d = pos (n / d)
floor_div (negsuc n) d = negsuc (n / d)

-- `Time.Unix`
unfoldable pub unix : Time → ℤ
unix t = floor_div (t -ℤ unix_epoch) second

-- `strings.ToLower`, as far as its result is compared with ASCII words: the Kelvin sign and the dotted
-- capital I are the only characters behind ASCII with a lower case in it.
unfoldable pub to_lower : Text → Text
to_lower [] = []
to_lower (c ∷ s) =
    (if leb b'A' c && leb c b'Z'
      then c + 32
      else if nat_eqb c 0x212a
      then b'k'
      else if nat_eqb c 0x130
      then b'i'
      else c)
    ∷ to_lower s

-- The tests of `extractToken` on the parts of the header.
unfoldable pub token_of : {E : Type 0} → List Text → Result E Text
token_of [] = fail incomplete_header
token_of (scheme ∷ []) = fail incomplete_header
token_of (scheme ∷ (token ∷ [])) =
    if text_eqb (to_lower scheme) (codes "bearer") || text_eqb (to_lower scheme) (codes "token")
    then ok token
    else fail unknown_format
token_of (scheme ∷ (token ∷ (part ∷ parts))) = fail incomplete_header

unfoldable pub extract_token : {E : Type 0} → Text → Result E Text
extract_token [] = fail no_header
extract_token (c ∷ hdr) = token_of (split b' ' (c ∷ hdr))

-- The parts of the websocket header: `"bearer "` before the second.
abbrev pub bearer_of : List Text → Text
bearer_of [] = []
bearer_of (first ∷ []) = []
bearer_of (first ∷ (token ∷ parts)) = codes "bearer " ++ trim_space token

abbrev pub bearer_in : Headers → Text
bearer_in h = elim (h.authorization) [
  | [] ↦ bearer_of (split b' ' h.websocket_protocol)
  | c ∷ s ↦ c ∷ s
]

module _ {E : Type 0} (lib : Library E) (env : Environment) where
  -- `DecodeJwtToken`; `now` is the time at which the library looks at the clock.
  unfoldable pub decode_jwt_token : Text → ℤ → Result E JwtUser
  decode_jwt_token [] now = fail empty_token
  decode_jwt_token (c ∷ token) now = elim (env.secret_key) [
    | [] ↦ fail no_secret
    | k ∷ key ↦ elim (lib.parse now (k ∷ key) (c ∷ token)) [
      | refused e ↦ fail (parsing e)
      | parsed user valid ↦ if valid then ok user else fail invalid_token
    ]
  ]

  -- `DecodeJWTToken`, of a request.
  unfoldable pub decode_request : Headers → ℤ → Result E JwtUser
  decode_request h now = elim (extract_token (bearer_in h)) [
    | fail e ↦ fail e
    | ok token ↦ decode_jwt_token token now
  ]

  -- The claims of `SignJWTTokenWithDuration`.
  abbrev pub claims : ℤ → ℤ → Bool → Duration → Time → Time → JwtUser
  claims user_id chat_id is_admin duration now later = record {
    issued_at = unix now;
    not_before = unix now;
    expires_at = unix (add later duration);
    issuer = env.app_url;
    subject = env.app_url;
    user_id = user_id;
    chat_id = chat_id;
    session_id = pos 0;
    is_admin = is_admin;
  }

  -- `SignJWTTokenWithDuration`, which reads the clock twice.
  unfoldable pub sign_jwt_token_with_duration :
      ℤ → ℤ → Bool → Duration → Time → Time → Result E Text
  sign_jwt_token_with_duration user_id chat_id is_admin duration now later = elim (env.secret_key) [
    | [] ↦ fail no_secret
    | k ∷ key ↦ elim (lib.sign (k ∷ key) (claims user_id chat_id is_admin duration now later)) [
      | unsigned e ↦ fail (signing e)
      | signed token ↦ ok token
    ]
  ]

  -- `SignJWTToken`, for six hours.
  abbrev pub sign_jwt_token : ℤ → ℤ → Bool → Time → Time → Result E Text
  sign_jwt_token user_id chat_id is_admin =
      sign_jwt_token_with_duration user_id chat_id is_admin (pos (6 * 3600 * second))
