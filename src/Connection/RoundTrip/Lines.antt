-- ===== src/Connection/RoundTrip/Lines.antt =====
-- Single characters, lines and line ends of `Connection::InputReader`, on a reader with known input.
use lsp_framework_noec.Base.{
  ℕ, zero, suc, ◌<◌, ◌≡◌, ◌≢◌, refl, ◌∙◌, false, [], ◌∷◌, ◌++◌, append_assoc, append-nil, none,
  some, Bytes, length, All, ◌==◌, arith, ok,
}
use lsp_framework_noec.Io.{Stream, read}
use lsp_framework_noec.Connection.Reader.{ConnectionError, Reader, get_char, peek_char}
use lsp_framework_noec.Connection.Header.{read_line, expect_line_end}

-- A reader with `i` ahead, with no character peeked at and with the first one peeked at.
abbrev pub fresh : Stream → Bytes → Reader
fresh s i = record { stream = record s { input = i }; peeked = none }

abbrev pub held : ℕ → Stream → Bytes → Reader
held c s i = record { stream = record s { input = i }; peeked = some c }

pub get-fresh : (c : ℕ) (s : Stream) (i : Bytes) → get_char (fresh s (c ∷ i)) ≡ (c, fresh s i)
unfolding get_char read
get-fresh c s i = refl

pub get-held : (c : ℕ) (s : Stream) (i : Bytes) → get_char (held c s i) ≡ (c, fresh s i)
unfolding get_char
get-held c s i = refl

pub peek-fresh : (c : ℕ) (s : Stream) (i : Bytes) → peek_char (fresh s (c ∷ i)) ≡ (c, held c s i)
unfolding peek_char read
peek-fresh c s i = refl

pub peek-held : (c : ℕ) (s : Stream) (i : Bytes) → peek_char (held c s i) ≡ (c, held c s i)
unfolding peek_char
peek-held c s i = refl

-- No end of line within.
abbrev pub IsLine : Bytes → Type 0
IsLine = All (λ c. (c ≢ b'\r') × (c ≢ b'\n'))

pub read_line-held :
    (fuel : ℕ) (line : Bytes) (c : ℕ) (s : Stream) (i : Bytes)
    → read_line (suc fuel) line (held c s i) ≡ read_line (suc fuel) line (fresh s (c ∷ i))
unfolding read_line
read_line-held fuel line c s i = rw (peek-held c s i, peek-fresh c s i)

pub read_line-append :
    (fuel : ℕ) (line text : Bytes) (s : Stream) (rest : Bytes)
    → length text < fuel
    → IsLine text
    → read_line fuel line (fresh s (text ++ b'\r' ∷ rest)) ≡ (ok (line ++ text), held b'\r' s rest)
unfolding read_line
read_line-append zero line text s rest h l = absurd (omega arith)
read_line-append (suc fuel) line [] s rest h l = rw (peek-fresh b'\r' s rest) (rw append-nil)
read_line-append (suc fuel) line (c ∷ text) s rest h ((n13, n10), l) =
    let no_return : (c == b'\r') ≡ false = ground arith in
    let no_feed : (c == b'\n') ≡ false = ground arith in
    rw (peek-fresh c s (text ++ b'\r' ∷ rest)) (
      rw no_return (
        rw (get-held c s (text ++ b'\r' ∷ rest)) (
          rw no_feed (
            read_line-append fuel (line ++ c ∷ []) text s rest (omega arith) l
            ∙ rw (append_assoc line (c ∷ []) text)))))

pub expect_line_end-held :
    (e : ConnectionError) (s : Stream) (rest : Bytes)
    → expect_line_end e (held b'\r' s (b'\n' ∷ rest)) ≡ (ok tt, fresh s rest)
unfolding expect_line_end
expect_line_end-held e s rest = rw (get-held b'\r' s (b'\n' ∷ rest)) (rw (get-fresh b'\n' s rest))
