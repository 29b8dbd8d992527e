-- ===== src/Connection/Header.antt =====
-- Message headers: `trimWhitespace`, `equalCaseInsensitive`, `verifyContentType`, `parseHeaderValue`,
-- `readNextMessageHeaderField`, `readMessageHeader` and `messageHeaderString` of lsp/connection.cpp.
use lsp_framework_noec.Base.{
  ℕ, zero, suc, Bool, true, false, not, ◌&&◌, ◌||◌, [], ◌∷◌, ◌++◌, Option, none, some, Bytes, codes,
  length, drop, ◌==◌, bytes_eq, if◌then◌else◌, is_space, to_lower, from_chars_unsigned,
  to_string_nat, Outcome, ok, unexpected,
}
use lsp_framework_noec.Json.Literal.{is_success, is_nil}
use lsp_framework_noec.Json.Cursor.{skip_whitespace}
use lsp_framework_noec.Io.{eof}
use lsp_framework_noec.Connection.Reader.{
  ConnectionError, connection_lost, unexpected_line_end, invalid_content_length, field_unterminated,
  header_unterminated, unsupported_content_type, unsupported_encoding, M, ◌>>=◌, pure, fail,
  diverge, get, peek,
}

pub record MessageHeader : Type 0 where
  pub content_length : ℕ
  pub content_type : Bytes

abbrev pub default_content_type : Bytes
default_content_type = codes "application/vscode-jsonrpc; charset=utf-8"

abbrev pub default_header : MessageHeader
default_header = record { content_length = 0; content_type = default_content_type }

-- White space is dropped at the front, then at the back.
unfoldable pub trim_back : Bytes → Bytes
trim_back [] = []
trim_back (c ∷ s) = if is_space c && is_nil (trim_back s) then [] else c ∷ trim_back s

unfoldable pub trim_whitespace : Bytes → Bytes
trim_whitespace s = trim_back (skip_whitespace s)

unfoldable pub equal_case_insensitive : Bytes → Bytes → Bool
equal_case_insensitive [] [] = true
equal_case_insensitive (a ∷ as') (b ∷ bs) =
    to_lower a == to_lower b && equal_case_insensitive as' bs
equal_case_insensitive _ _ = false

unfoldable pub starts_with : Bytes → Bytes → Bool
starts_with s [] = true
starts_with [] (p ∷ ps) = false
starts_with (c ∷ s) (p ∷ ps) = c == p && starts_with s ps

abbrev pub longer_front : ℕ → Option (Bytes × Bytes) → Option (Bytes × Bytes)
longer_front c none = none
longer_front c (some (a, b)) = some (c ∷ a, b)

-- `find`: the text in front of the first occurrence, and the text behind it.
unfoldable pub split_at : Bytes → Bytes → Option (Bytes × Bytes)
split_at key [] = if starts_with [] key then some ([], []) else none
split_at key (c ∷ s) =
    let later = longer_front c (split_at key s) in
    if starts_with (c ∷ s) key then some ([], drop (length key) (c ∷ s)) else later

-- `charset.substr(0, charset.find(';'))`.
unfoldable pub before_semicolon : Bytes → Bytes
before_semicolon s = elim (split_at (codes ";") s) [ none ↦ s | some (a, b) ↦ a ]

unfoldable pub verify_charset : Bytes → Outcome ConnectionError (Unit {0})
unfolding before_semicolon
verify_charset behind =
    let charset = trim_whitespace (before_semicolon behind) in
    if bytes_eq charset (codes "utf-8") || bytes_eq charset (codes "utf8")
    then ok tt
    else unexpected (unsupported_encoding charset)

unfoldable pub verify_content_type : Bytes → Outcome ConnectionError (Unit {0})
verify_content_type t =
    if not (starts_with t (codes "application/vscode-jsonrpc"))
    then unexpected (unsupported_content_type t)
    else elim (split_at (codes "charset=") t) [ none ↦ ok tt | some (a, b) ↦ verify_charset b ]

-- The fields that `parseHeaderValue` knows, from the trimmed key and value on.
unfoldable pub set_field : MessageHeader → Bytes → Bytes → Outcome ConnectionError MessageHeader
set_field header key value =
    let r = from_chars_unsigned 64 value in
    if equal_case_insensitive key (codes "Content-Length")
    then (if is_success r.ec && is_nil r.rest
        then ok (record header { content_length = r.value })
        else unexpected invalid_content_length)
    else if equal_case_insensitive key (codes "Content-Type")
    then ok (record header { content_type = value })
    else ok header

unfoldable pub parse_header_value : MessageHeader → Bytes → Outcome ConnectionError MessageHeader
parse_header_value header line = elim (split_at (codes ":") line) [
  | none ↦ ok header
  | some (a, b) ↦ set_field header (trim_whitespace a) (trim_whitespace b)
]

-- The loop of `readNextMessageHeaderField`, with the line so far.
unfoldable pub read_line : ℕ → Bytes → M Bytes
read_line zero line = diverge
read_line (suc fuel) line = do
  c ← peek
  let more = (do
    d ← get
    let rest = read_line fuel (line ++ d ∷ [])
    if d == b'\n' then fail unexpected_line_end else rest)
  if c == b'\r' then pure line else more

-- `reader.get() != '\r' || reader.get() != '\n'`: the second call is made only if the first fits.
unfoldable pub expect_line_end : ConnectionError → M (Unit {0})
expect_line_end error = do
  c ← get
  let second = (do d ← get; if d == b'\n' then pure tt else fail error)
  if c == b'\r' then second else fail error

abbrev pub lift : {A : Type 0} → Outcome ConnectionError A → M A
lift o r = (o, r)

unfoldable pub read_next_header_field : ℕ → MessageHeader → M MessageHeader
read_next_header_field fuel header = do
  c ← peek
  let field = (do
    line ← read_line fuel []
    header' ← lift (parse_header_value header line)
    _ ← expect_line_end field_unterminated
    pure header')
  if c == eof then fail connection_lost else field

-- The loop of `readMessageHeader`: `lines` bounds the fields, `fuel` the length of a line.
unfoldable pub read_header_fields : ℕ → ℕ → MessageHeader → M MessageHeader
read_header_fields zero fuel header = diverge
read_header_fields (suc lines) fuel header = do
  c ← peek
  let more = (do
    header' ← read_next_header_field fuel header
    read_header_fields lines fuel header')
  if c == b'\r' then pure header else more

unfoldable pub read_message_header : ℕ → M MessageHeader
read_message_header fuel = do
  header ← read_header_fields fuel fuel default_header
  _ ← expect_line_end header_unterminated
  pure header

unfoldable pub message_header_string : MessageHeader → Bytes
message_header_string header =
    codes "Content-Length: "
    ++ (to_string_nat header.content_length
        ++ (b'\r' ∷ b'\n' ∷ (codes "Content-Type: " ++ (header.content_type ++ codes "\r\n\r\n"))))
