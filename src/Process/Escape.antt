-- ===== src/Process/Escape.antt =====
-- `escapeArg` and the command line that `buildCmdLine` makes, of the build of lsp/process.cpp for
-- Windows, up to the conversion to wide characters.
pub mod ReadBack
use lsp_framework_noec.Base.{
  ℕ, zero, suc, ◌+◌, ◌*◌, ◌/◌, ◌%◌, ◌^◌, ◌<◌, ◌≡◌, refl, sym, ap, ◌∙◌, inl, inr, Bool, true, false,
  ◌||◌, List, [], ◌∷◌, ◌++◌, append_assoc, append-nil, Option, none, some, Bytes, length, replicate,
  ◌==◌, if◌then◌else◌, Bool-cases, arith,
}

-- The characters of `find_first_of`.
abbrev pub is_special : ℕ → Bool
is_special c =
    c == b' ' || c == b'\t' || c == b'\n' || c == 11 || c == b'\\' || c == b'"' || c == b','

unfoldable pub has_special : Bytes → Bool
has_special [] = false
has_special (c ∷ arg) = let rest = has_special arg in is_special c || rest

-- `append(count, '\\')`, with a count of 32 bits.
abbrev pub backslashes : ℕ → Bytes
backslashes n = replicate (n % 2 ^ 32) b'\\'

-- The loop, with the backslashes that were counted so far.
unfoldable pub escape_loop : ℕ → Bytes → Bytes
escape_loop n [] = backslashes (n * 2)
escape_loop n (c ∷ arg) =
    let counted = escape_loop (suc n) arg in
    let rest = escape_loop 0 arg in
    if c == b'\\'
    then counted
    else if c == b'"'
    then backslashes (n * 2 + 1) ++ (b'"' ∷ rest)
    else backslashes n ++ (c ∷ rest)

unfoldable pub escape_arg : Bytes → Bytes
escape_arg arg = if has_special arg then b'"' ∷ (escape_loop 0 arg ++ (b'"' ∷ [])) else arg

-- The arguments behind the executable.
unfoldable pub escape_args : List Bytes → Bytes
escape_args [] = []
escape_args (arg ∷ args) = b' ' ∷ (escape_arg arg ++ escape_args args)

unfoldable pub build_cmd_line : Bytes → List Bytes → Bytes
build_cmd_line executable args = escape_arg executable ++ escape_args args

-- The documented rules by which a program reads an argument that starts with a quotation mark, with the
-- backslashes that were read before: an even number of backslashes and a quotation mark are half as
-- many backslashes and the end, an odd number and a quotation mark are half as many and the mark,
-- and other backslashes are themselves. What is read and what is left, if the argument has an end.
abbrev pub before : Bytes → Option (Bytes × Bytes) → Option (Bytes × Bytes)
before front none = none
before front (some (arg, left)) = some (front ++ arg, left)

unfoldable pub read_quoted : ℕ → Bytes → Option (Bytes × Bytes)
read_quoted n [] = none
read_quoted n (c ∷ text) =
    let counted = read_quoted (suc n) text in
    let rest = read_quoted 0 text in
    if c == b'\\'
    then counted
    else if c == b'"'
    then (if n % 2 == 0
        then some (replicate (n / 2) b'\\', text)
        else before (replicate (n / 2) b'\\' ++ (b'"' ∷ [])) rest)
    else before (replicate n b'\\' ++ (c ∷ [])) rest

-- An argument that starts with no quotation mark goes up to a space.
unfoldable pub read_plain : Bytes → Bytes × Bytes
read_plain [] = ([], [])
read_plain (c ∷ text) =
    let (arg, left) = read_plain text in if c == b' ' then ([], c ∷ text) else (c ∷ arg, left)

unfoldable pub read_argument : Bytes → Option (Bytes × Bytes)
read_argument [] = none
read_argument (c ∷ text) = if c == b'"' then read_quoted 0 text else some (read_plain (c ∷ text))
