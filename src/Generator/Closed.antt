-- ===== src/Generator/Closed.antt =====
-- A comment of `documentationComment` ends where it is to end.
use lsp_framework_noec.Base.{
  ℕ, zero, suc, ◌≡◌, refl, sym, ap, ◌∙◌, ◌⊎◌, inl, inr, false, List, [], ◌∷◌, ◌++◌, append_assoc,
  Bytes, codes, replicate, ok,
}
use lsp_framework_noec.Generator.Text.{
  comment_lines, title_line, gap_line, finish_comment, comment_of, documentation_comment,
}
use lsp_framework_noec.Generator.Stops.{split_string_view-Returns}
use lsp_framework_noec.Generator.Comment.{slash_first, closes, closes-append, escaped_line-Safe}

abbrev tabs : ℕ → Bytes
tabs n = replicate n b'\t'

-- A text in which no comment ends and before which none can.
abbrev Quiet : Bytes → Type 0
Quiet text = (closes text ≡ false) × (slash_first text ≡ false)

tabs-Quiet : (n : ℕ) (text : Bytes) → Quiet text → Quiet (tabs n ++ text)
unfolding closes
tabs-Quiet zero text h = h
tabs-Quiet (suc n) text h = ((tabs-Quiet n text h).0, refl)

line-Quiet :
    (n : ℕ) (line rest : Bytes)
    → closes line ≡ false
    → Quiet rest
    → Quiet (tabs n ++ (codes " * " ++ (line ++ (codes "\n" ++ rest))))
unfolding closes
line-Quiet n line rest h (k, f) =
    tabs-Quiet n (codes " * " ++ (line ++ (codes "\n" ++ rest)))
      (closes-append line (codes "\n" ++ rest) h k refl, refl)

line-append :
    (indent line rest after : Bytes)
    → (indent ++ (codes " * " ++ (line ++ (codes "\n" ++ rest)))) ++ after
      ≡ indent ++ (codes " * " ++ (line ++ (codes "\n" ++ (rest ++ after))))
line-append indent line rest after =
    append_assoc indent (codes " * " ++ (line ++ (codes "\n" ++ rest))) after
    ∙ ap (λ r. indent ++ (codes " * " ++ r)) (append_assoc line (codes "\n" ++ rest) after)

comment_lines-Quiet :
    (n : ℕ) (lines : List Bytes) (after : Bytes)
    → Quiet after
    → (text : Bytes) × (comment_lines (tabs n) lines ≡ ok text) × Quiet (text ++ after)
unfolding comment_lines
comment_lines-Quiet n [] after h = ([], refl, h)
comment_lines-Quiet n (line ∷ lines) after h =
    let (escaped, same, safe) = escaped_line-Safe line in
    let (rest, others, quiet) = comment_lines-Quiet n lines after h in
    (
      tabs n ++ (codes " * " ++ (escaped ++ (codes "\n" ++ rest))),
      rw (same, others) refl,
      rw (line-append (tabs n) escaped rest after)
          (line-Quiet n escaped (rest ++ after) safe quiet),
    )

title_line-Quiet :
    (n : ℕ) (title after : Bytes)
    → closes title ≡ false
    → Quiet after
    → Quiet (title_line (tabs n) title ++ after)
title_line-Quiet n [] after safe h = h
title_line-Quiet n (c ∷ title) after safe h =
    rw (line-append (tabs n) (c ∷ title) [] after) (line-Quiet n (c ∷ title) after safe h)

gap_line-Quiet :
    (n : ℕ) (title after : Bytes) → Quiet after → Quiet (gap_line (tabs n) title ++ after)
unfolding closes
gap_line-Quiet n [] after h = h
gap_line-Quiet n (c ∷ title) after h =
    rw (append_assoc (tabs n) (codes " *\n") after)
      (tabs-Quiet n (codes " *\n" ++ after) (h.0, refl))

-- A text that is a comment, behind tabs: it starts a comment, which ends at its own end and nowhere
-- before.
abbrev pub IsComment : ℕ → Bytes → Type 0
IsComment n comment =
    (body : Bytes) × (comment ≡ tabs n ++ (codes "/*" ++ (body ++ codes "*/\n")))
    × (closes (body ++ codes "*") ≡ false)

-- The end of a comment, but for the slash.
abbrev last_line : ℕ → Bytes
last_line n = tabs n ++ codes " *"

last_line-Quiet : (n : ℕ) → Quiet (last_line n)
unfolding closes
last_line-Quiet n = tabs-Quiet n (codes " *") (refl, refl)

finish_comment-IsComment :
    (n : ℕ) (body : Bytes)
    → Quiet (body ++ last_line n)
    → IsComment n (finish_comment (tabs n) body)
unfolding closes
finish_comment-IsComment n body h =
    let whole = codes "\n" ++ (body ++ (tabs n ++ codes " ")) in
    let end : (tail : Bytes)
        → whole ++ tail ≡ codes "\n" ++ (body ++ (tabs n ++ (codes " " ++ tail))) =
      λ tail.
        ap (λ r. codes "\n" ++ r)
          (append_assoc body (tabs n ++ codes " ") tail
            ∙ ap (λ r. body ++ r) (append_assoc (tabs n) (codes " ") tail)) in
    (
      whole,
      ap (λ r. tabs n ++ (codes "/*" ++ r)) (sym (end (codes "*/\n"))),
      ap closes (end (codes "*")) ∙ h.0,
    )

comment_of-IsComment :
    (n : ℕ) (title : Bytes) (lines : List Bytes)
    → closes title ≡ false
    → (comment : Bytes) × (comment_of (tabs n) title lines ≡ ok comment)
      × ((comment ≡ []) ⊎ IsComment n comment)
comment_of-IsComment n [] [] safe = ([], refl, inl refl)
comment_of-IsComment n (c ∷ title) [] safe = (
  finish_comment (tabs n) (title_line (tabs n) (c ∷ title)),
  refl,
  inr (
      finish_comment-IsComment n (title_line (tabs n) (c ∷ title))
        (title_line-Quiet n (c ∷ title) (last_line n) safe (last_line-Quiet n))),
)
comment_of-IsComment n title (line ∷ lines) safe =
    let (text, same, quiet) =
      comment_lines-Quiet n (line ∷ lines) (last_line n) (last_line-Quiet n) in
    let body = title_line (tabs n) title ++ (gap_line (tabs n) title ++ text) in
    (
      finish_comment (tabs n) body,
      rw same refl,
      inr (
          finish_comment-IsComment n body (
            rw
              (
                append_assoc (title_line (tabs n) title) (gap_line (tabs n) title ++ text)
                    (last_line n),
                append_assoc (gap_line (tabs n) title) text (last_line n),
              )
              (title_line-Quiet n title (gap_line (tabs n) title ++ (text ++ last_line n)) safe
                (gap_line-Quiet n title (text ++ last_line n) quiet)))),
    )

-- If no comment ends in the title, then whatever the documentation, `documentationComment` comes to an
-- end, and what it makes is nothing or one comment, which ends at the end of the text.
pub documentation_comment-IsComment :
    (title documentation : Bytes) (n : ℕ)
    → closes title ≡ false
    → (comment : Bytes) × (documentation_comment title documentation n ≡ ok comment)
      × ((comment ≡ []) ⊎ IsComment n comment)
unfolding documentation_comment
documentation_comment-IsComment title documentation n safe =
    let (lines, same) = split_string_view-Returns documentation b'\n' [] false in
    rw same (comment_of-IsComment n title lines safe)
