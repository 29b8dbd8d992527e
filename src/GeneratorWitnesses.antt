-- ===== src/GeneratorWitnesses.antt =====
-- Runs of the theorems on the code generator's texts.
use lsp_framework_noec.Base.{◌≡◌, ◌⊎◌, refl, false, List, [], ◌++◌, Bytes, codes, ok, All}
use lsp_framework_noec.Generator.Text.{
  split_string_view, join_strings, upper_case_identifier, documentation_comment,
}
use lsp_framework_noec.Generator.Comment.{closes}
use lsp_framework_noec.Generator.Closed.{IsComment, documentation_comment-IsComment}
use lsp_framework_noec.Generator.Split.{
  IsIdentifierChar, join_strings-split_string_view, upper_case_identifier-All,
}

title_open : closes (codes "textDocument/hover") ≡ false
unfolding closes
title_open = refl

documentation_comment_example :
    (comment : Bytes) × (documentation_comment
        (codes "textDocument/hover")
        (codes "A glob: **/*.ts\n")
        1
      ≡ ok comment)
    × ((comment ≡ []) ⊎ IsComment 1 comment)
documentation_comment_example =
    documentation_comment-IsComment (codes "textDocument/hover") (codes "A glob: **/*.ts\n") 1
      title_open

split_example :
    (parts : List Bytes) × (split_string_view (codes "a::b::") (codes "::") false ≡ ok parts)
    × ((codes "a::b::" ≡ join_strings parts (codes "::") (λ s. s))
        ⊎ (codes "a::b::" ≡ join_strings parts (codes "::") (λ s. s) ++ codes "::"))
split_example = join_strings-split_string_view (codes "a::b::") b':' (codes ":")

identifier_example :
    (id : Bytes) × (upper_case_identifier (codes "$/setTrace") ≡ ok id) × All IsIdentifierChar id
identifier_example = upper_case_identifier-All (codes "$/setTrace")
