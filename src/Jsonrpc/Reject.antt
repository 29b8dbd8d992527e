-- ===== src/Jsonrpc/Reject.antt =====
-- Messages that are refused, and messages that end the process.
use lsp_framework_noec.Base.{
  ◌≡◌, refl, true, false, some, Bytes, codes, unexpected, terminate, Bool-cases, inl, inr, ◌∙◌,
  bytes_eq,
}
use lsp_framework_noec.Json.Value.{Value, Fields, is_string}
use lsp_framework_noec.Json.Floats.{Floats}
use lsp_framework_noec.Json.Object.{unexpected_value, contains, find, get}
use lsp_framework_noec.Json.Object.Laws.{contains-find}
use lsp_framework_noec.Jsonrpc.{
  as_string, version_missing, message_from_json, request_from_json, response_from_json,
}

module _ (F : Floats) where
  open F use {Double}

  -- A message with no member `jsonrpc` is refused as such, whatever else it has.
  pub message_from_json_unversioned :
      (json : Fields Double)
      → contains (codes "jsonrpc") json ≡ false
      → message_from_json F json ≡ unexpected version_missing
  unfolding message_from_json request_from_json response_from_json
  message_from_json_unversioned json h = elim (Bool-cases (contains (codes "method") json)) [
    | inl e ↦ rw h (rw e)
    | inr e ↦ rw h (rw e)
  ]

  as_string_other :
      (v : Value Double) → is_string v ≡ false → as_string v ≡ unexpected unexpected_value
  as_string_other (Value.string s) h = cc h
  as_string_other _ h = refl

  contains_found :
      (key : Bytes) (json : Fields Double) {v : Value Double}
      → find key json ≡ some v
      → contains key json ≡ true
  contains_found key json h = contains-find key json ∙ rw h

  -- A version 2.0 request whose member `method` is no string ends the process.
  pub message_from_json_method_type :
      (json : Fields Double) (v : Value Double)
      → find (codes "jsonrpc") json ≡ some (Value.string (codes "2.0"))
      → find (codes "method") json ≡ some v
      → is_string v ≡ false
      → message_from_json F json ≡ terminate
  unfolding message_from_json request_from_json
  message_from_json_method_type json v hj hm n =
      rw (contains_found (codes "method") json hm, contains_found (codes "jsonrpc") json hj)
        (unfold get in rw (hj, get) (rw (hm, get) (unfold bytes_eq in rw (as_string_other v n))))
