-- ===== src/Connection/Reader.antt =====
-- `Connection::InputReader` of lsp/connection.cpp, and the errors of a connection.
use lsp_framework_noec.Base.{
  ℕ, ◌-◌, ◌^◌, ltb, [], ◌∷◌, ◌++◌, Option, none, some, Bytes, length, replicate, ◌==◌,
  if◌then◌else◌, Outcome, ok, unexpected, terminate, out_of_fuel,
}
use lsp_framework_noec.Io
use lsp_framework_noec.Io.{Stream, eof}
use lsp_framework_noec.Json.Cursor.{ParseError}
use lsp_framework_noec.Jsonrpc.{ProtocolError}

pub data ConnectionError : Type 0 where
  connection_lost io_failed unexpected_line_end invalid_content_length : ConnectionError
  field_unterminated header_unterminated : ConnectionError
  unsupported_content_type unsupported_encoding : Bytes → ConnectionError
  parse_failed : ParseError → ConnectionError
  protocol_failed : ProtocolError → ConnectionError
  not_object_or_array : ConnectionError

pub record Reader : Type 0 where
  pub stream : Stream
  pub peeked : Option ℕ

-- A call that changes the reader and may fail.
abbrev pub M : Type 0 → Type 0
M A = Reader → Outcome ConnectionError A × Reader

abbrev pub bind_outcome :
    {A B : Type 0}
    → (A → M B)
    → Outcome ConnectionError A × Reader
    → Outcome ConnectionError B × Reader
bind_outcome f (ok a, r) = f a r
bind_outcome f (unexpected e, r) = (unexpected e, r)
bind_outcome f (terminate, r) = (terminate, r)
bind_outcome f (out_of_fuel, r) = (out_of_fuel, r)

infixl 5 ◌>>=◌ ◌>>◌
abbrev pub ◌>>=◌ : {A B : Type 0} → M A → (A → M B) → M B
◌>>=◌ m f r = bind_outcome f (m r)

abbrev pub ◌>>◌ : {A B : Type 0} → M A → M B → M B
m >> k = m >>= λ _. k

abbrev pub pure : {A : Type 0} → A → M A
pure a r = (ok a, r)

abbrev pub fail : {A : Type 0} → ConnectionError → M A
fail e r = (unexpected e, r)

abbrev pub diverge : {A : Type 0} → M A
diverge r = (out_of_fuel, r)

abbrev first_or_eof : Bytes → ℕ
first_or_eof [] = eof
first_or_eof (c ∷ s) = c

-- `get()`: an error or the end of the stream leaves `Eof` in `c`.
get_from : Option ℕ → Reader → ℕ × Reader
get_from (some c) r = (c, record r { peeked = none })
get_from none r =
    let (got, done, s) = Io.read 1 r.stream in (first_or_eof got, record r { stream = s })

unfoldable pub get_char : Reader → ℕ × Reader
unfolding get_from
get_char r = get_from r.peeked r

peek_from : Option ℕ → Reader → ℕ × Reader
peek_from (some c) r = (c, r)
peek_from none r = let (c, r') = get_char r in (c, record r' { peeked = some c })

unfoldable pub peek_char : Reader → ℕ × Reader
unfolding peek_from get_char
peek_char r = peek_from r.peeked r

-- `get()` and `peek()` in the monad.
abbrev pub get : M ℕ
get r = let (c, r') = get_char r in (ok c, r')

abbrev pub peek : M ℕ
peek r = let (c, r') = peek_char r in (ok c, r')

-- A buffer of zeros with the bytes that were read put in front.
abbrev pub filled : ℕ → Bytes → Bytes
filled size got = got ++ replicate (size - length got) 0

-- `read(&content[0], size)` behind `content.resize(size)`: the content.
read_more : Option ℕ → ℕ → M Bytes
read_more (some c) size r =
    let (got, done, s) = Io.read (size - 1) r.stream in
    (
      if done then ok (filled size (c ∷ got)) else unexpected io_failed,
      record { stream = s; peeked = none },
    )
read_more none size r =
    let (got, done, s) = Io.read size r.stream in
    (if done then ok (filled size got) else unexpected io_failed, record r { stream = s })

-- The longest `std::string`: its positions are numbered by a `std::ptrdiff_t`. A machine with less
-- memory refuses shorter ones too, which is left out.
abbrev pub max_size : ℕ
max_size = 2 ^ 63 - 1

-- `content.resize(size)` throws a `std::length_error`, which `readMessage` lets out, for more than
-- a string can hold.
unfoldable pub read_content : ℕ → M Bytes
unfolding read_more
read_content size r =
    if ltb max_size size
    then (terminate, r)
    else if size == 0
    then (ok [], r)
    else read_more r.peeked size r
