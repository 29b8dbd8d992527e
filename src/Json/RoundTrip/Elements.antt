-- ===== src/Json/RoundTrip/Elements.antt =====
-- One element of an array or one member of an object, read from the stack.
use lsp_framework_noec.Base.{
  ℕ, suc, ◌≡◌, refl, ap, sym, ◌∙◌, Bool, true, false, [], ◌∷◌, ◌++◌, Bytes, is_space,
}
use lsp_framework_noec.Json.Value.{Value, Items, Fields, null, nil, cons, end, field, push_back}
use lsp_framework_noec.Json.Floats.{Floats}
use lsp_framework_noec.Json.Object.{contains, subscript}
use lsp_framework_noec.Json.Literal.{to_string_literal}
use lsp_framework_noec.Json.Cursor.{skip_whitespace}
use lsp_framework_noec.Json.Scalar.{parse_string}
use lsp_framework_noec.Json.Scalar.Strings.{parse_string-to_string_literal}
use lsp_framework_noec.Json.Parser.{
  object, object_key, array, same, back, member, entry, Stack, Parser,
}
use lsp_framework_noec.Json.Parser.Rounds.{
  go, round_first_element, round_next_element, round_first_key, round_next_key, round_key,
}
use lsp_framework_noec.Json.Printer.{new_line, key_sep, emit_items, emit_fields}
use lsp_framework_noec.Json.Printer.Text.{
  skip_whitespace_stop, new_line-IsSpaces, Prints, Front, emit-Front, emit_items-append,
  emit_fields-append, to_string_literal-Opens,
}
use lsp_framework_noec.Json.RoundTrip.Containers.{need, fields_append}
use lsp_framework_noec.Json.RoundTrip.Run.{
  at, Reads, skip_to_front, at-Front, pop_element, pop_member, comma_space, print,
}

skip_colon :
    (format : Bool) (s : Bytes)
    → (at : Bytes) × (skip_whitespace (key_sep format ++ s) ≡ b':' ∷ at)
      × (skip_whitespace at ≡ skip_whitespace s)
unfolding skip_whitespace is_space
skip_colon true s = (b' ' ∷ s, refl, refl)
skip_colon false s = (s, refl, refl)

module _ (F : Floats) (format : Bool) (size : ℕ) (result : Value F.Double) where
  open F use {Double}

  abbrev Q : Stack Double → Bytes → Parser Double
  Q = at F format size result

  -- The first element behind the opening bracket.
  pub first_element :
      (x : Value Double) (level level' n : ℕ) (more : Bytes) (st : Stack Double)
      → Prints F x
      → Reads F format size result x level more
      → go F (suc (need x n)) (
          Q
            (entry array same (Value.array nil) ∷ st)
            (new_line format level' ++ (print F format size result level x ++ more)))
        ≡ go F n (Q (entry array same (Value.array (cons x nil)) ∷ st) more)
  first_element x level level' n more st h reads =
      let fr = emit-Front F format level x h in
      round_first_element F (need x n) size result st _ fr.first (fr.more ++ more)
        (skip_to_front F format size result (new_line format level') _ more fr
          (new_line-IsSpaces format level'))
        fr.opens.no_bracket
      ∙ reads (fr.first ∷ (fr.more ++ more)) (at-Front F format size result _ more fr) n back null
          (entry array same (Value.array (push_back nil null)) ∷ st)
      ∙ ap (go F n) (pop_element F format size result x nil st more)
      ∙ unfold push_back in refl

  -- A further element, behind a comma.
  pub next_element :
      (x : Value Double) (xs : Items Double) (level n : ℕ) (tl : Bytes) (y : Value Double)
      (ys : Items Double) (st : Stack Double)
      → Prints F x
      → Reads F format size result x level (emit_items F format level xs ++ tl)
      → go F (suc (need x n)) (
          Q
            (entry array same (Value.array (cons y ys)) ∷ st)
            (emit_items F format level (cons x xs) ++ tl))
        ≡ go F n (
            Q
              (entry array same (Value.array (cons y (push_back ys x))) ∷ st)
              (emit_items F format level xs ++ tl))
  next_element x xs level n tl y ys st h reads =
      let fr = emit-Front F format level x h in
      let more = emit_items F format level xs ++ tl in
      round_next_element F (need x n) size result st _ fr.first (fr.more ++ more) y ys
        (new_line format level ++ (print F format size result level x ++ more))
        (ap skip_whitespace (emit_items-append F format level x xs tl)
          ∙ skip_whitespace_stop b',' _ (comma_space F format size result))
        (skip_to_front F format size result (new_line format level) _ more fr
          (new_line-IsSpaces format level))
        fr.opens.no_bracket
      ∙ reads (fr.first ∷ (fr.more ++ more)) (at-Front F format size result _ more fr) n back null
          (entry array same (Value.array (push_back (cons y ys) null)) ∷ st)
      ∙ ap (go F n) (pop_element F format size result x (cons y ys) st more)
      ∙ unfold push_back in refl

  pub literal-Front : (k : Bytes) → Front (to_string_literal k)
  unfolding to_string_literal
  literal-Front k = record {
    first = b'"';
    more = _;
    splits = refl;
    opens = to_string_literal-Opens;
  }

  -- A key, its colon and its value, from the state `ObjectKey` on.
  pub member_run :
      (k : Bytes) (v : Value Double) (fs : Fields Double) (level n : ℕ) (more : Bytes)
      (st : Stack Double)
      → Prints F v
      → contains k fs ≡ false
      → Reads F format size result v level more
      → go F (suc (need v n)) (
          Q (entry object_key same (Value.object fs) ∷ entry object same (Value.object fs) ∷ st) (
            to_string_literal k
            ++ (key_sep format ++ (print F format size result level v ++ more))))
        ≡ go F n (Q (entry object same (Value.object (fields_append fs (field k v end))) ∷ st) more)
  member_run k v fs level n more st h fresh reads =
      let fr = emit-Front F format level v h in
      let kf = literal-Front k in
      let behind = key_sep format ++ (print F format size result level v ++ more) in
      let (at, colon, spaces) = skip_colon format (print F format size result level v ++ more) in
      round_key F (need v n) size result st _ kf.first (kf.more ++ behind) fs (Value.object fs) k
        behind at (skip_to_front F format size result [] (to_string_literal k) behind kf tt)
        (ap (parse_string size) (sym (ap (λ t. t ++ behind) kf.splits))
          ∙ parse_string-to_string_literal size k behind)
        fresh colon
      ∙ reads at
          (spaces
            ∙ skip_to_front F format size result [] _ more fr tt
            ∙ sym (ap (λ t. t ++ more) fr.splits))
          n (member k) null (entry object same (Value.object (subscript k fs)) ∷ st)
      ∙ ap (go F n) (pop_member F format size result k v fs st more fresh)

  -- The first member, behind the opening brace.
  pub first_member :
      (k : Bytes) (v : Value Double) (level level' n : ℕ) (more : Bytes) (st : Stack Double)
      → Prints F v
      → Reads F format size result v level more
      → go F (suc (suc (need v n))) (
          Q (entry object same (Value.object end) ∷ st) (
            new_line format level'
            ++ (to_string_literal k
                ++ (key_sep format ++ (print F format size result level v ++ more)))))
        ≡ go F n (Q (entry object same (Value.object (field k v end)) ∷ st) more)
  first_member k v level level' n more st h reads =
      let kf = literal-Front k in
      let behind = key_sep format ++ (print F format size result level v ++ more) in
      round_first_key F (suc (need v n)) size result st _ kf.first (kf.more ++ behind)
        (skip_to_front F format size result (new_line format level') (to_string_literal k) behind kf
          (new_line-IsSpaces format level'))
        kf.opens.no_brace
      ∙ ap
          (λ t. go F (suc (need v n)) (
            Q (entry object_key same (Value.object end) ∷ entry object same (Value.object end) ∷ st)
              t))
          (sym (ap (λ t. t ++ behind) kf.splits))
      ∙ member_run k v end level n more st h (unfold contains in refl) reads

  -- A further member, behind a comma.
  pub next_member :
      (k : Bytes) (v : Value Double) (fs : Fields Double) (level n : ℕ) (tl : Bytes) (j : Bytes)
      (w : Value Double) (gs : Fields Double) (st : Stack Double)
      → Prints F v
      → contains k (field j w gs) ≡ false
      → Reads F format size result v level (emit_fields F format level fs ++ tl)
      → go F (suc (suc (need v n))) (
          Q
            (entry object same (Value.object (field j w gs)) ∷ st)
            (emit_fields F format level (field k v fs) ++ tl))
        ≡ go F n (
            Q
              (entry object same (Value.object (fields_append (field j w gs) (field k v end))) ∷ st)
              (emit_fields F format level fs ++ tl))
  next_member k v fs level n tl j w gs st h fresh reads =
      let kf = literal-Front k in
      let more = emit_fields F format level fs ++ tl in
      let behind = key_sep format ++ (print F format size result level v ++ more) in
      round_next_key F (suc (need v n)) size result st _ kf.first (kf.more ++ behind) j w gs
        (new_line format level ++ (to_string_literal k ++ behind))
        (ap skip_whitespace (emit_fields-append F format level k v fs tl)
          ∙ skip_whitespace_stop b',' _ (comma_space F format size result))
        (skip_to_front F format size result (new_line format level) (to_string_literal k) behind kf
          (new_line-IsSpaces format level))
        kf.opens.no_brace
      ∙ ap
          (λ t. go F (suc (need v n)) (
            Q
              (entry object_key same (Value.object (field j w gs))
                ∷ entry object same (Value.object (field j w gs))
                ∷ st)
              t))
          (sym (ap (λ t. t ++ behind) kf.splits))
      ∙ member_run k v (field j w gs) level n more st h fresh reads
