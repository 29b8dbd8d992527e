-- ===== src/Process/Escape/ReadBack.antt =====
-- The arguments of a command line that `buildCmdLine` makes are read back.
use lsp_framework_noec.Base.{
  ℕ, zero, suc, ◌+◌, ◌*◌, ◌/◌, ◌%◌, ◌^◌, ◌<◌, ◌≡◌, refl, sym, ap, ◌∙◌, inl, inr, true, false, List,
  [], ◌∷◌, ◌++◌, append_assoc, append-nil, Option, none, some, Bytes, length, replicate, ◌==◌,
  if◌then◌else◌, Bool-cases, arith,
}
use lsp_framework_noec.Process.Escape.{
  has_special, backslashes, escape_loop, escape_arg, escape_args, before, read_quoted, read_plain,
  read_argument,
}

read_quoted-replicate :
    (k n : ℕ) (text : Bytes) → read_quoted n (replicate k b'\\' ++ text) ≡ read_quoted (n + k) text
unfolding read_quoted
read_quoted-replicate zero n text = let same : n + 0 ≡ n = omega arith in rw same refl
read_quoted-replicate (suc k) n text =
    let same : n + suc k ≡ suc n + k = omega arith in rw same (read_quoted-replicate k (suc n) text)

read_quoted-mark :
    (n : ℕ) (text : Bytes)
    → read_quoted n (b'"' ∷ text) ≡ (
        if n % 2 == 0
        then some (replicate (n / 2) b'\\', text)
        else before (replicate (n / 2) b'\\' ++ (b'"' ∷ [])) (read_quoted 0 text))
unfolding read_quoted
read_quoted-mark n text = refl

read_quoted-plain :
    (n c : ℕ) (text : Bytes)
    → (c == b'\\') ≡ false
    → (c == b'"') ≡ false
    → read_quoted n (c ∷ text) ≡ before (replicate n b'\\' ++ (c ∷ [])) (read_quoted 0 text)
unfolding read_quoted
read_quoted-plain n c text h k = rw (h, k) refl

replicate-cons : (n c : ℕ) (s : Bytes) → replicate (suc n) c ++ s ≡ replicate n c ++ (c ∷ s)
replicate-cons zero c s = refl
replicate-cons (suc n) c s = ap (◌∷◌ c) (replicate-cons n c s)

backslashes-small : (n : ℕ) → n < 2 ^ 32 → backslashes n ≡ replicate n b'\\'
backslashes-small n h =
    let same : n % 2 ^ 32 ≡ n = omega (arith, h) in ap (λ k. replicate k b'\\') same

-- What is read of a backslash count and a quotation mark behind it.
read_quoted-end :
    (n : ℕ) (left : Bytes)
    → n < 2 ^ 31
    → read_quoted 0 (backslashes (n * 2) ++ (b'"' ∷ left)) ≡ some (replicate n b'\\', left)
read_quoted-end n left h =
    let count : 0 + n * 2 ≡ n * 2 = omega arith in
    let even : (n * 2 % 2 == 0) ≡ true = ground arith in
    let half : n * 2 / 2 ≡ n = omega arith in
    ap (λ b. read_quoted 0 (b ++ (b'"' ∷ left))) (backslashes-small (n * 2) (omega (arith, h)))
    ∙ read_quoted-replicate (n * 2) 0 (b'"' ∷ left)
    ∙ ap (λ k. read_quoted k (b'"' ∷ left)) count
    ∙ read_quoted-mark (n * 2) left
    ∙ rw (even, half) refl

read_quoted-mark_inside :
    (n : ℕ) (text : Bytes)
    → n < 2 ^ 31
    → read_quoted 0 (backslashes (n * 2 + 1) ++ (b'"' ∷ text))
      ≡ before (replicate n b'\\' ++ (b'"' ∷ [])) (read_quoted 0 text)
read_quoted-mark_inside n text h =
    let count : 0 + (n * 2 + 1) ≡ n * 2 + 1 = omega arith in
    let odd : ((n * 2 + 1) % 2 == 0) ≡ false = ground arith in
    let half : (n * 2 + 1) / 2 ≡ n = omega arith in
    ap (λ b. read_quoted 0 (b ++ (b'"' ∷ text))) (backslashes-small (n * 2 + 1) (omega (arith, h)))
    ∙ read_quoted-replicate (n * 2 + 1) 0 (b'"' ∷ text)
    ∙ ap (λ k. read_quoted k (b'"' ∷ text)) count
    ∙ read_quoted-mark (n * 2 + 1) text
    ∙ rw (odd, half) refl

read_quoted-char :
    (n c : ℕ) (text : Bytes)
    → n < 2 ^ 31
    → (c == b'\\') ≡ false
    → (c == b'"') ≡ false
    → read_quoted 0 (backslashes n ++ (c ∷ text))
      ≡ before (replicate n b'\\' ++ (c ∷ [])) (read_quoted 0 text)
read_quoted-char n c text h no_backslash no_mark =
    let count : 0 + n ≡ n = omega arith in
    ap (λ b. read_quoted 0 (b ++ (c ∷ text))) (backslashes-small n (omega (arith, h)))
    ∙ read_quoted-replicate n 0 (c ∷ text)
    ∙ ap (λ k. read_quoted k (c ∷ text)) count
    ∙ read_quoted-plain n c text no_backslash no_mark

before-some :
    (front arg left : Bytes) (r : Option (Bytes × Bytes))
    → r ≡ some (arg, left)
    → before front r ≡ some (front ++ arg, left)
before-some front arg left none e = absurd (cc e)
before-some front arg left (some (a, l)) e = cc e

-- The loop, and the mark behind it, read back.
read_quoted-escape_loop :
    (n : ℕ) (arg left : Bytes)
    → n + length arg < 2 ^ 31
    → read_quoted 0 (escape_loop n arg ++ (b'"' ∷ left)) ≡ some (replicate n b'\\' ++ arg, left)
unfolding escape_loop
read_quoted-escape_loop n [] left h =
    read_quoted-end n left (omega (arith, h))
    ∙ ap (λ r. some (r, left)) (sym (append-nil (replicate n b'\\')))
read_quoted-escape_loop n (c ∷ arg) left h = elim (Bool-cases (c == b'\\')) [
  | inl y ↦
      let same : c ≡ b'\\' = ground (arith, y) in
      rw (y, same)
        (read_quoted-escape_loop (suc n) arg left (omega (arith, h))
          ∙ ap (λ r. some (r, left)) (replicate-cons n b'\\' arg))
  | inr x ↦ elim (Bool-cases (c == b'"')) [
    | inl y ↦
        let same : c ≡ b'"' = ground (arith, y) in
        let rest = escape_loop 0 arg in
        rw (x, y, same)
          (ap (read_quoted 0) (append_assoc (backslashes (n * 2 + 1)) (b'"' ∷ rest) (b'"' ∷ left))
            ∙ read_quoted-mark_inside n (rest ++ (b'"' ∷ left)) (omega (arith, h))
            ∙ before-some (replicate n b'\\' ++ (b'"' ∷ [])) arg left _
                (read_quoted-escape_loop 0 arg left (omega (arith, h)))
            ∙ ap (λ r. some (r, left)) (append_assoc (replicate n b'\\') (b'"' ∷ []) arg))
    | inr z ↦
        let rest = escape_loop 0 arg in
        rw (x, z)
          (ap (read_quoted 0) (append_assoc (backslashes n) (c ∷ rest) (b'"' ∷ left))
            ∙ read_quoted-char n c (rest ++ (b'"' ∷ left)) (omega (arith, h)) x z
            ∙ before-some (replicate n b'\\' ++ (c ∷ [])) arg left _
                (read_quoted-escape_loop 0 arg left (omega (arith, h)))
            ∙ ap (λ r. some (r, left)) (append_assoc (replicate n b'\\') (c ∷ []) arg))
  ]
]

read_plain-escape_args :
    (args : List Bytes) → read_plain (escape_args args) ≡ ([], escape_args args)
unfolding read_plain escape_args
read_plain-escape_args [] = refl
read_plain-escape_args (arg ∷ args) = refl

read_plain-append :
    (arg left : Bytes)
    → has_special arg ≡ false
    → read_plain left ≡ ([], left)
    → read_plain (arg ++ left) ≡ (arg, left)
unfolding read_plain has_special
read_plain-append [] left h k = k
read_plain-append (c ∷ arg) left h k =
    let no_space : (c == b' ') ≡ false = ground (arith, h) in
    let others : has_special arg ≡ false = ground (arith, h) in
    rw (no_space, read_plain-append arg left others k) refl

no_mark-special : (c : ℕ) (arg : Bytes) → has_special (c ∷ arg) ≡ false → (c == b'"') ≡ false
unfolding has_special
no_mark-special c arg h = ground (arith, h)

-- Each argument that is not empty, as `buildCmdLine` writes it, is read back by the documented rules
-- as that argument, and the arguments behind it are left, if it is shorter than 2 ^ 31 characters.
pub read_argument-escape_arg :
    (c : ℕ) (arg : Bytes) (args : List Bytes)
    → length (c ∷ arg) < 2 ^ 31
    → read_argument (escape_arg (c ∷ arg) ++ escape_args args) ≡ some (c ∷ arg, escape_args args)
unfolding read_argument escape_arg
read_argument-escape_arg c arg args h = elim (Bool-cases (has_special (c ∷ arg))) [
  | inl y ↦
      let left = escape_args args in
      rw y (
        ap (read_quoted 0) (append_assoc (escape_loop 0 (c ∷ arg)) (b'"' ∷ []) left)
        ∙ read_quoted-escape_loop 0 (c ∷ arg) left (omega (arith, h)))
  | inr n ↦
      let no_mark = no_mark-special c arg n in
      rw (n, no_mark)
        (ap some (read_plain-append (c ∷ arg) (escape_args args) n (read_plain-escape_args args)))
]
