-- ===== src/JsonUtils/Tests.antt =====
-- json-utils/json-utils.go: the message of an error.
use d_utils.Base.{ℕ, ◌≡◌, refl, Option, none, some}
use d_utils.Base.Text.{Text, codes}
use d_utils.JsonUtils.{decoding, decode, decode_req_body}

abbrev broken : Text → ℕ × Option ℕ
broken body = (0, some 9)

-- Of a body of more than 20 bytes the message shows what stands behind the first 20, and not those.
shows_the_rest :
    decode_req_body broken 0 (codes "01234567890123456789tail", none)
    ≡ (0, some (decoding (codes "tail") 9))
unfolding decode_req_body decode
shows_the_rest = refl
