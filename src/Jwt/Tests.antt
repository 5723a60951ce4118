-- ===== src/Jwt/Tests.antt =====
-- jwt/jwt.go: a library that forgets its claims but for one user, and a token of that user.
use d_utils.Base.{ℕ, ◌≡◌, refl, Bool, true, false, not, ◌&&◌, [], if◌then◌else◌, arith, inr, All}
use mathlib.Core.Path.{subst}
use d_utils.Base.Int.{eqb_ℤ, eqb_ℤ_iff, pos, ◌-ℤ◌, ◌+ℤ◌}
use d_utils.Base.GoTime.{Time, add}
use d_utils.Base.Text.{Text, text_eqb, text_eqb_iff, is_space, codes, split}
use d_utils.Jwt.{
  JwtUser, ok, fail, incomplete_header, parsed, refused, Signed, signed, unsigned, Library,
  Environment, unix, to_lower, extract_token, token_of, decode_request,
  sign_jwt_token_with_duration,
}
use d_utils.Jwt.Tokens.{IsLawful, by_authorization, sign-decode}

two_tokens : extract_token {E = ℕ} (codes "Bearer a b") ≡ fail incomplete_header
unfolding extract_token token_of split
two_tokens = refl

abbrev key : Text
key = codes "secret"

abbrev environment : Environment
environment = record { secret_key = key; app_url = codes "app" }

-- The claims of a user who signs in at the epoch.
abbrev ann : JwtUser
ann = record {
  issued_at = pos 0;
  not_before = pos 0;
  expires_at = pos 21_600;
  issuer = codes "app";
  subject = codes "app";
  user_id = pos 7;
  chat_id = pos 8;
  session_id = pos 0;
  is_admin = false;
}

unfoldable is_ann : JwtUser → Bool
is_ann u =
    eqb_ℤ u.issued_at (pos 0)
    && (eqb_ℤ u.not_before (pos 0)
        && (eqb_ℤ u.expires_at (pos 21_600)
            && (text_eqb u.issuer (codes "app")
                && (text_eqb u.subject (codes "app")
                    && (eqb_ℤ u.user_id (pos 7)
                        && (eqb_ℤ u.chat_id (pos 8)
                            && (eqb_ℤ u.session_id (pos 0) && not u.is_admin)))))))

is_ann_only : (u : JwtUser) → is_ann u ≡ true → u ≡ ann
unfolding is_ann
is_ann_only u h =
    let a : u.issued_at ≡ pos 0 = (eqb_ℤ_iff u.issued_at (pos 0)).0 (ground arith) in
    let b : u.not_before ≡ pos 0 = (eqb_ℤ_iff u.not_before (pos 0)).0 (ground arith) in
    let c : u.expires_at ≡ pos 21_600 = (eqb_ℤ_iff u.expires_at (pos 21_600)).0 (ground arith) in
    let f : u.user_id ≡ pos 7 = (eqb_ℤ_iff u.user_id (pos 7)).0 (ground arith) in
    let g : u.chat_id ≡ pos 8 = (eqb_ℤ_iff u.chat_id (pos 8)).0 (ground arith) in
    let i : u.session_id ≡ pos 0 = (eqb_ℤ_iff u.session_id (pos 0)).0 (ground arith) in
    let d : u.issuer ≡ codes "app" = (text_eqb_iff u.issuer (codes "app")).0 (ground arith) in
    let e : u.subject ≡ codes "app" = (text_eqb_iff u.subject (codes "app")).0 (ground arith) in
    let j : u.is_admin ≡ false = ground arith in cc (a, b, c, d, e, f, g, i, j)

-- It signs for the one user, and knows the one token.
abbrev one_user : Library ℕ
one_user = record {
  sign = λ k u. if text_eqb k key && is_ann u then signed (codes "x.y.z") else unsigned 1;
  parse = λ now k t.
      if text_eqb k key && text_eqb t (codes "x.y.z") then parsed ann true else refused 2;
}

abbrev answer : Bool → Bool → Signed ℕ
answer a b = if a && b then signed (codes "x.y.z") else unsigned 1

signed_both :
    (a b : Bool) (t : Text) → answer a b ≡ signed t → (a ≡ true) × (b ≡ true) × (codes "x.y.z" ≡ t)
signed_both true true t e = (refl, refl, cc e)
signed_both true false t e = absurd (cc e)
signed_both false b t e = absurd (cc e)

signed_only :
    (k : Text) (u : JwtUser) (t : Text)
    → one_user.sign k u ≡ signed t
    → (text_eqb k key ≡ true) × (u ≡ ann) × (codes "x.y.z" ≡ t)
signed_only k u t e =
    let (a, b, c) = signed_both (text_eqb k key) (is_ann u) t e in (a, is_ann_only u b, c)

one_user-IsLawful : IsLawful one_user
one_user-IsLawful = record {
  starts = λ k u t e empty. cc (empty, (signed_only k u t e).2);
  plain = λ k u t e.
      subst (All (λ c. is_space c ≡ false)) (signed_only k u t e).2
        (refl, (refl, (refl, (refl, (refl, tt)))));
  parses = λ k u t now e a b c.
      let (own_key, own_user, own_token) = signed_only k u t e in
      rw (own_key, ← own_token, own_user) refl;
}

abbrev epoch : Time
epoch = pos 62_135_596_800_000_000_000

sign-decode_example :
    (user : JwtUser) × (decode_request one_user environment
        (record { authorization = codes "TOKEN x.y.z"; websocket_protocol = [] })
        (pos 90)
      ≡ ok user)
    × (user.user_id ≡ pos 7)
    × (user.chat_id ≡ pos 8)
    × (user.is_admin ≡ false)
    × (user.session_id ≡ pos 0)
    × (user.issuer ≡ codes "app")
unfolding unix add ◌+ℤ◌ ◌-ℤ◌
sign-decode_example =
    sign-decode one_user environment (pos 7) (pos 8) false (pos 21_600_000_000_000) epoch epoch
      (codes "x.y.z") (record { authorization = codes "TOKEN x.y.z"; websocket_protocol = [] })
      (pos 90) one_user-IsLawful (λ e. cc e) (unfold sign_jwt_token_with_duration is_ann in refl)
      (by_authorization (codes "TOKEN") (refl, (refl, (refl, (refl, (refl, tt)))))
        (inr (unfold to_lower in refl)) refl)
      (omega arith) (omega arith)
