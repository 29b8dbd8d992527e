-- ===== src/Jsonrpc.antt =====
-- lsp/jsonrpc/jsonrpc.h and lsp/jsonrpc/jsonrpc.cpp: JSON-RPC 2.0 messages as values and as JSON.
-- `ExpectedRef::value()` and `std::expected::value()` end the process where there is no value.
pub mod RoundTrip
pub mod Reject
use lsp_framework_noec.Base.{
  Bool, true, false, not, ◌&&◌, ◌||◌, List, [], ◌∷◌, Option, none, some, Bytes, codes, bytes_eq,
  if◌then◌else◌, ℤ, Outcome, ok, unexpected, terminate, out_of_fuel, ◌>>=◌,
}
use lsp_framework_noec.Json.Value.{
  Value, Items, Fields, decimal, nil, cons, end, is_null, is_number, is_string, is_object, is_array,
}
use lsp_framework_noec.Json.Floats.{Floats}
use lsp_framework_noec.Json.Object.{TypeError, unexpected_value, contains, get, assign}

-- What a `ProtocolError` says.
pub data ProtocolError : Type 0 where
  version_missing version_not_string version_unsupported id_type params_type : ProtocolError
  code_missing code_type message_missing message_type : ProtocolError
  result_or_error empty_batch : ProtocolError

-- The message of an error.
unfoldable pub describe : ProtocolError → Bytes
describe version_missing = codes "jsonrpc property is missing"
describe version_not_string = codes "jsonrpc property expected to be a string"
describe version_unsupported = codes "Invalid or unsupported jsonrpc version"
describe id_type = codes "Request id type must be string, number or null"
describe params_type = codes "Params type must be object or array"
describe code_missing = codes "Response error is missing the error code"
describe code_type = codes "Response error code must be a number"
describe message_missing = codes "Response error is missing the error message"
describe message_type = codes "Response error message must be a string"
describe result_or_error = codes "Response must have either 'result' or 'error"
describe empty_batch = codes "Message batch must not be empty"

-- `std::variant<json::Null, json::Integer, json::String>`.
pub data MessageId : Type 0 where
  null : MessageId
  integer : ℤ → MessageId
  string : Bytes → MessageId

pub record Request (D : Type 0) : Type 0 where
  pub id : Option MessageId
  pub method : Bytes
  pub params : Option (Value D)

-- `jsonrpc::Error`; `details` is its member `data`.
pub record Error (D : Type 0) : Type 0 where
  pub code : ℤ
  pub message : Bytes
  pub details : Option (Value D)

pub record Response (D : Type 0) : Type 0 where
  pub id : MessageId
  pub result : Option (Value D)
  pub error : Option (Error D)

pub data Message (D : Type 0) : Type 0 where
  request : Request D → Message D
  response : Response D → Message D

abbrev pub is_notification : {D : Type 0} → Request D → Bool
is_notification r = elim r.id [ none ↦ true | some i ↦ false ]

-- `.value()` on a result with a type error.
abbrev pub value_of : {A : Type 0} → Outcome TypeError A → Outcome ProtocolError A
value_of (ok a) = ok a
value_of (unexpected e) = terminate
value_of terminate = terminate
value_of out_of_fuel = out_of_fuel

abbrev pub map_some : {A B : Type 0} → (A → B) → Option A → Option B
map_some f none = none
map_some f (some a) = some (f a)

module _ {D : Type 0} where
  abbrev pub as_string : Value D → Outcome TypeError Bytes
  as_string (Value.string s) = ok s
  as_string _ = unexpected unexpected_value

  abbrev pub as_object : Value D → Outcome TypeError (Fields D)
  as_object (Value.object fs) = ok fs
  as_object _ = unexpected unexpected_value

  unfoldable pub verify_protocol_version : Fields D → Outcome ProtocolError (Unit {0})
  verify_protocol_version json =
      let checked = (do
        jsonrpc ← value_of (get (codes "jsonrpc") json)
        let version = (do
          s ← value_of (as_string jsonrpc)
          if bytes_eq s (codes "2.0") then ok tt else unexpected version_unsupported)
        if is_string jsonrpc then version else unexpected version_not_string) in
      if contains (codes "jsonrpc") json then checked else unexpected version_missing

  -- `params`: a null is dropped, "even though it is not allowed by jsonrpc 2.0".
  unfoldable pub read_params : Value D → Outcome ProtocolError (Option (Value D))
  read_params (Value.object fs) = ok (some (Value.object fs))
  read_params (Value.array xs) = ok (some (Value.array xs))
  read_params Value.null = ok none
  read_params _ = unexpected params_type

  -- `json::Value` of a message id.
  unfoldable pub id_to_json : MessageId → Value D
  id_to_json null = Value.null
  id_to_json (integer n) = Value.integer n
  id_to_json (string s) = Value.string s

  -- A member that is written only if it has a value.
  abbrev pub assign_some : Bytes → Option (Value D) → Fields D → Fields D
  assign_some key none json = json
  assign_some key (some v) json = assign key v json

  unfoldable pub error_to_json : Error D → Fields D
  error_to_json e = assign_some (codes "data") e.details (
      assign (codes "message") (Value.string e.message)
        (assign (codes "code") (Value.integer e.code) end))

  abbrev pub version_member : Fields D
  version_member = assign (codes "jsonrpc") (Value.string (codes "2.0")) end

  unfoldable pub message_to_json : Message D → Fields D
  message_to_json (request r) = assign_some (codes "params") r.params (
      assign (codes "method") (Value.string r.method)
        (assign_some (codes "id") (map_some id_to_json r.id) version_member))
  message_to_json (response r) =
      assign_some (codes "error") (map_some (λ e. Value.object (error_to_json e)) r.error) (
        assign_some (codes "result") r.result
          (assign (codes "id") (id_to_json r.id) version_member))

  unfoldable pub message_batch_to_json : List (Message D) → Items D
  message_batch_to_json [] = nil
  message_batch_to_json (m ∷ ms) =
      cons (Value.object (message_to_json m)) (message_batch_to_json ms)

  unfoldable pub create_request : MessageId → Bytes → Option (Value D) → Request D
  create_request id method params = record { id = some id; method = method; params = params }

  unfoldable pub create_notification : Bytes → Option (Value D) → Request D
  create_notification method params = record { id = none; method = method; params = params }

  unfoldable pub create_response : MessageId → Value D → Response D
  create_response id result = record { id = id; result = some result; error = none }

  unfoldable pub create_error_response : MessageId → ℤ → Bytes → Option (Value D) → Response D
  create_error_response id code message details = record {
    id = id;
    result = none;
    error = some (record { code = code; message = message; details = details });
  }

-- The last test of `responseFromJson`.
abbrev pub has_one : {A B : Type 0} → Option A → Option B → Bool
has_one none none = false
has_one (some a) none = true
has_one none (some b) = true
has_one (some a) (some b) = false

abbrev pub id_or_null : Option MessageId → MessageId
id_or_null none = null
id_or_null (some id) = id

module _ (F : Floats) where
  open F use {Double, of_int, to_int}

  -- `json::Value::number()`, then the cast to `json::Integer`.
  abbrev pub as_integer : Value Double → Outcome TypeError ℤ
  as_integer (decimal d) = ok (to_int d)
  as_integer (Value.integer n) = ok (to_int (of_int n))
  as_integer _ = unexpected unexpected_value

  unfoldable pub message_id_from_json : Value Double → Outcome ProtocolError MessageId
  message_id_from_json json =
      let text = (do s ← value_of (as_string json); ok (string s)) in
      let number = (do n ← value_of (as_integer json); ok (integer n)) in
      if is_string json
      then text
      else if is_number json
      then number
      else if is_null json
      then ok null
      else unexpected id_type

  -- The member `id`, if there is one.
  unfoldable pub read_id : Fields Double → Outcome ProtocolError (Option MessageId)
  read_id json =
      let found = (do
        v ← value_of (get (codes "id") json)
        id ← message_id_from_json v
        ok (some id)) in
      if contains (codes "id") json then found else ok none

  unfoldable pub request_from_json : Fields Double → Outcome ProtocolError (Message Double)
  unfolding verify_protocol_version read_id read_params
  request_from_json json = do
    _ ← verify_protocol_version json
    m ← value_of (get (codes "method") json)
    method ← value_of (as_string m)
    id ← read_id json
    let found = (do p ← value_of (get (codes "params") json); read_params p)
    params ← if contains (codes "params") json then found else ok none
    ok (request (record { id = id; method = method; params = params }))

  unfoldable pub error_from_json : Fields Double → Outcome ProtocolError (Error Double)
  error_from_json json =
      let details = (do v ← value_of (get (codes "data") json); ok (some v)) in
      let message = (do
        m ← value_of (get (codes "message") json)
        if is_string m then value_of (as_string m) else unexpected message_type) in
      let code = (do
        c ← value_of (get (codes "code") json)
        if is_number c then value_of (as_integer c) else unexpected code_type) in
      do
        n ← if contains (codes "code") json then code else unexpected code_missing
        s ← if contains (codes "message") json then message else unexpected message_missing
        d ← if contains (codes "data") json then details else ok none
        ok (record { code = n; message = s; details = d })

  unfoldable pub response_from_json : Fields Double → Outcome ProtocolError (Message Double)
  unfolding verify_protocol_version read_id
  response_from_json json =
      let result = (do v ← value_of (get (codes "result") json); ok (some v)) in
      let error = (do
        e ← value_of (get (codes "error") json)
        fs ← value_of (as_object e)
        parsed ← error_from_json fs
        ok (some parsed)) in
      do
        _ ← verify_protocol_version json
        id ← read_id json
        r ← if contains (codes "result") json then result else ok none
        e ← if contains (codes "error") json then error else ok none
        if has_one r e
            then ok (response (record { id = id_or_null id; result = r; error = e }))
            else unexpected result_or_error

  unfoldable pub message_from_json : Fields Double → Outcome ProtocolError (Message Double)
  message_from_json json =
      if contains (codes "method") json then request_from_json json else response_from_json json

  batch_loop : Items Double → Outcome ProtocolError (List (Message Double))
  batch_loop nil = ok []
  batch_loop (cons v xs) = do
    fs ← value_of (as_object v)
    m ← message_from_json fs
    ms ← batch_loop xs
    ok (m ∷ ms)

  unfoldable pub message_batch_from_json :
      Items Double → Outcome ProtocolError (List (Message Double))
  unfolding batch_loop
  message_batch_from_json nil = unexpected empty_batch
  message_batch_from_json (cons v xs) = batch_loop (cons v xs)
