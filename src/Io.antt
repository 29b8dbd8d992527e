-- ===== src/Io.antt =====
-- lsp/io: `Stream` as `StandardIOStream` of lsp/io/standardio.cpp implements it. The world outside
-- is what `stdin` will still deliver, what `stdout` has taken, and how the two end.
use lsp_framework_noec.Base.{
  suc, ◌∷◌, ◌≡◌, refl, arith, take-length_append, drop-length_append, ℕ, Bool, true, false, ◌&&◌,
  ◌||◌, Bytes, ◌++◌, length, take, drop, ltb, ◌==◌, if◌then◌else◌,
}

pub record Stream : Type 0 where
  pub input : Bytes
  -- Behind the input `stdin` fails, and does not just end.
  pub input_breaks : Bool
  -- `ferror(stdin)`.
  pub input_error : Bool
  pub output : Bytes
  -- `stdout` takes no more.
  pub output_broken : Bool

-- `Stream::Eof`.
abbrev pub eof : ℕ
eof = 0xff

-- `read(buffer, size)`: the bytes that `fread` puts into the buffer, whether the call succeeds, and
-- the stream behind it.
unfoldable pub read : ℕ → Stream → Bytes × Bool × Stream
read size s =
    let got = take size s.input in
    let short = ltb (length got) size in
    let error = (short && s.input_breaks) || s.input_error in
    let failed = (short || size == 0) && error in
    (
      got,
      if failed then false else true,
      record s { input = drop size s.input; input_error = error },
    )

-- `write(buffer, size)` with a size above 0.
unfoldable pub write : Bytes → Stream → Bool × Stream
write bytes s =
    if s.output_broken then (false, s) else (true, record s { output = s.output ++ bytes })

-- A read of as many bytes as a text in front has gives that text.
pub read-append :
    (c : ℕ) (xs rest : Bytes) (s : Stream)
    → read (suc (length xs)) (record s { input = c ∷ (xs ++ rest) })
      ≡ (c ∷ xs, true, record s { input = rest })
unfolding read
read-append c xs rest s =
    let whole : ltb (suc (length xs)) (suc (length xs)) ≡ false = ground arith in
    let some_size : (suc (length xs) == 0) ≡ false = ground arith in
    rw (take-length_append xs rest, drop-length_append xs rest, whole, some_size) refl
