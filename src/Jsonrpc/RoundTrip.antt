-- ===== src/Jsonrpc/RoundTrip.antt =====
-- A message that was written as JSON is read back.
use lsp_framework_noec.Base.{
  ◌≡◌, ◌≢◌, refl, true, List, [], ◌∷◌, Option, none, some, Bytes, bytes_eq, ℤ, Fits, All, ok,
}
use lsp_framework_noec.Json.Value.{Value}
use lsp_framework_noec.Json.Floats.{Floats}
use lsp_framework_noec.Json.Object.{contains, find, get, assign}
use lsp_framework_noec.Jsonrpc.{
  MessageId, null, integer, string, Error, Message, request, response, id_to_json, error_to_json,
  message_to_json, message_batch_to_json, message_id_from_json, read_params, request_from_json,
  error_from_json, response_from_json, message_from_json, message_batch_from_json, batch_loop,
  has_one,
}

abbrev pub IsSoundId : MessageId → Type 0
IsSoundId null = Unit
IsSoundId (integer n) = Fits 31 n
IsSoundId (string s) = Unit

abbrev pub IsSoundOptionId : Option MessageId → Type 0
IsSoundOptionId none = Unit
IsSoundOptionId (some id) = IsSoundId id

module _ {D : Type 0} where
  -- `params` is absent, an object or an array.
  abbrev pub IsSoundParams : Option (Value D) → Type 0
  IsSoundParams none = Unit
  IsSoundParams (some (Value.object fs)) = Unit
  IsSoundParams (some (Value.array xs)) = Unit
  IsSoundParams (some _) = ⊥

  abbrev pub IsSoundError : Option (Error D) → Type 0
  IsSoundError none = Unit
  IsSoundError (some e) = Fits 31 e.code

  -- The messages of JSON-RPC: numbers of 32 bits, structured parameters, and either a result or an
  -- error in a response.
  abbrev pub IsSound : Message D → Type 0
  IsSound (request r) = IsSoundOptionId r.id × IsSoundParams r.params
  IsSound (response r) = IsSoundId r.id × (has_one r.result r.error ≡ true) × IsSoundError r.error

module _ (F : Floats) where
  open F use {Double, to_int-of_int}

  message_id_from_json-id_to_json :
      (id : MessageId) → IsSoundId id → message_id_from_json F (id_to_json id) ≡ ok id
  unfolding message_id_from_json id_to_json
  message_id_from_json-id_to_json null h = refl
  message_id_from_json-id_to_json (integer n) h = rw (to_int-of_int n h)
  message_id_from_json-id_to_json (string s) h = refl

  read_params_sound : (v : Value Double) → IsSoundParams (some v) → read_params v ≡ ok (some v)
  unfolding read_params
  read_params_sound (Value.object fs) h = refl
  read_params_sound (Value.array xs) h = refl
  read_params_sound Value.null h = absurd h
  read_params_sound (Value.boolean b) h = absurd h
  read_params_sound (Value.integer n) h = absurd h
  read_params_sound (Value.decimal d) h = absurd h
  read_params_sound (Value.string s) h = absurd h

  error_back :
      (code : ℤ) (message : Bytes) (details : Option (Value Double))
      → Fits 31 code
      → error_from_json F
          (error_to_json (record { code = code; message = message; details = details }))
        ≡ ok (record { code = code; message = message; details = details })
  unfolding error_from_json error_to_json contains assign find get bytes_eq
  error_back code message none h = rw (to_int-of_int code h)
  error_back code message (some v) h = rw (to_int-of_int code h)

  response_back :
      (id : MessageId) (result : Option (Value Double)) (error : Option (Error Double))
      → IsSound (response (record { id = id; result = result; error = error }))
      → message_from_json F
          (message_to_json (response (record { id = id; result = result; error = error })))
        ≡ ok (response (record { id = id; result = result; error = error }))
  unfolding message_from_json response_from_json message_to_json contains assign find get bytes_eq
  response_back id none none (hid, one, herr) = cc one
  response_back id (some v) none (hid, one, herr) = rw (message_id_from_json-id_to_json id hid)
  response_back id none (some e) (hid, one, herr) =
      rw (message_id_from_json-id_to_json id hid) (rw (error_back e.code e.message e.details herr))
  response_back id (some v) (some e) (hid, one, herr) = cc one

  module _ (method : Bytes) where
    request_back :
        (id : Option MessageId) (params : Option (Value Double))
        → IsSoundOptionId id
        → IsSoundParams params
        → message_from_json F
            (message_to_json (request (record { id = id; method = method; params = params })))
          ≡ ok (request (record { id = id; method = method; params = params }))
    unfolding message_from_json request_from_json message_to_json contains assign find get bytes_eq
    request_back none none hi hp = refl
    request_back none (some v) hi hp = rw (read_params_sound v hp)
    request_back (some id) none hi hp = rw (message_id_from_json-id_to_json id hi)
    request_back (some id) (some v) hi hp =
        rw (message_id_from_json-id_to_json id hi, read_params_sound v hp)

  -- What was written of a request or a response is read back as the same message.
  pub message_from_json-message_to_json :
      (m : Message Double) → IsSound m → message_from_json F (message_to_json m) ≡ ok m
  message_from_json-message_to_json (request r) (hid, hp) =
      request_back r.method r.id r.params hid hp
  message_from_json-message_to_json (response r) h = response_back r.id r.result r.error h

  batch_loop-message_batch_to_json :
      (ms : List (Message Double))
      → All IsSound ms
      → batch_loop F (message_batch_to_json ms) ≡ ok ms
  unfolding batch_loop message_batch_to_json
  batch_loop-message_batch_to_json [] h = refl
  batch_loop-message_batch_to_json (m ∷ ms) (hm, hs) =
      rw (message_from_json-message_to_json m hm, batch_loop-message_batch_to_json ms hs)

  -- A batch that is not empty, of messages that are sound (see `IsSound`), comes back from its JSON
  -- value as it was, in its order.
  pub message_batch_from_json-message_batch_to_json :
      (ms : List (Message Double))
      → ms ≢ []
      → All IsSound ms
      → message_batch_from_json F (message_batch_to_json ms) ≡ ok ms
  message_batch_from_json-message_batch_to_json [] n h = absurd (n refl)
  message_batch_from_json-message_batch_to_json (m ∷ ms) n h =
      unfold message_batch_from_json message_batch_to_json in
      batch_loop-message_batch_to_json (m ∷ ms) h
