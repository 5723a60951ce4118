-- ===== src/JsonUtils.antt =====
-- json-utils/json-utils.go: `Decode` and its callers. `json.Unmarshal` for the type of the caller is a
-- parameter: it returns the value, as far as it was filled, and an error. Texts are lists of bytes.
mod Tests
use d_utils.Base.{ℕ, [], ◌∷◌, Option, none, some, ltb, length, drop, if◌then◌else◌}
use d_utils.Base.Text.{Text}

-- What is wrapped, with the text that the message shows.
pub data DecodeError (E : Type 0) : Type 0 where
  no_data : DecodeError E
  decoding : Text → E → DecodeError E
  reading : E → DecodeError E

-- `truncatedBody`
abbrev pub truncated_body : Text → Text
truncated_body bytes = if ltb 20 (length bytes) then drop 20 bytes else bytes

module _ {ℓ} {T : Type ℓ} {E : Type 0} (unmarshal : Text → T × Option E) (zero_value : T) where
  -- `Decode` and `DecodeStr`
  unfoldable pub decode : Text → T × Option (DecodeError E)
  decode [] = (zero_value, some no_data)
  decode (b ∷ bytes) =
      let (v, e) = unmarshal (b ∷ bytes) in
      (v, elim e [ none ↦ none | some err ↦ some (decoding (truncated_body (b ∷ bytes)) err) ])

  -- `DecodeReqBody`: what `io.ReadAll` has read, and its error.
  unfoldable pub decode_req_body : Text × Option E → T × Option (DecodeError E)
  decode_req_body (body, none) = decode body
  decode_req_body (body, some e) = (zero_value, some (reading e))
