-- ===== src/Json/RoundTrip/Values.antt =====
-- `parse` reads back the text of any value that `stringify` can print faithfully.
use lsp_framework_noec.Base.{ℕ, suc, ◌+◌, ◌≡◌, ap, ◌∙◌, Bool, false, ◌∷◌, ◌++◌, Bytes}
use lsp_framework_noec.Json.Value.{
  Value, Items, Fields, null, boolean, integer, decimal, string, nil, cons, end, field, push_back,
  items_append,
}
use lsp_framework_noec.Json.Floats.{Floats}
use lsp_framework_noec.Json.Object.{contains}
use lsp_framework_noec.Json.Scalar.{is_number_char}
use lsp_framework_noec.Json.Scalar.RoundTrip.{Stops}
use lsp_framework_noec.Json.Parser.{
  value, object, array, Slot, same, entry, Stack, Parser, pop_state, run,
}
use lsp_framework_noec.Json.Parser.Rounds.{
  go, round_open_array, round_open_object, round_close_array, round_close_object,
}
use lsp_framework_noec.Json.Printer.{emit, emit_array, emit_object, emit_items, emit_fields}
use lsp_framework_noec.Json.Printer.Text.{
  skip_whitespace_stop, Prints, PrintsItems, PrintsFields, emit_array-append, emit_object-append,
  emit_items-Stops, emit_fields-Stops,
}
use lsp_framework_noec.Json.RoundTrip.Containers.{
  need, need_array, need_items, need_object, need_fields, items_append-push_back, items_append-nil,
  fields_append-end, fields_append, fields_append_assoc, Fresh, Fresh-fields_append, Fresh-end,
}
use lsp_framework_noec.Json.RoundTrip.Run.{at, Reads, close, skip_close, bracket_space, brace_space}
use lsp_framework_noec.Json.RoundTrip.Run.{
  null-Reads, boolean-Reads, integer-Reads, decimal-Reads, string-Reads, bracket_stops, brace_stops,
}
use lsp_framework_noec.Json.RoundTrip.Elements.{
  first_element, next_element, first_member, next_member,
}

module _ (F : Floats) (format : Bool) (size : ℕ) (result : Value F.Double) where
  open F use {Double}

  abbrev Q : Stack Double → Bytes → Parser Double
  Q = at F format size result

  abbrev R : Value Double → ℕ → Bytes → Type 0
  R = Reads F format size result

  close_array :
      (level f : ℕ) (slot : Slot) (v w : Value Double) (st : Stack Double) (rest : Bytes)
      → go F (suc f) (
          Q
            (entry array same v ∷ entry value slot w ∷ st)
            (close F format size result b']' level rest))
        ≡ go F f (pop_state (Q (entry value slot v ∷ st) rest))
  close_array level f slot v w st rest =
      round_close_array F f size result st slot w _ v rest
        (skip_close F format size result b']' level rest (bracket_space F format size result))

  close_object :
      (level f : ℕ) (slot : Slot) (v w : Value Double) (st : Stack Double) (rest : Bytes)
      → go F (suc f) (
          Q
            (entry object same v ∷ entry value slot w ∷ st)
            (close F format size result b'}' level rest))
        ≡ go F f (pop_state (Q (entry value slot v ∷ st) rest))
  close_object level f slot v w st rest =
      round_close_object F f size result st slot w _ v rest
        (skip_close F format size result b'}' level rest (brace_space F format size result))

  empty_array : (level : ℕ) (rest : Bytes) → R (Value.array nil) level rest
  unfolding emit need
  empty_array level rest text skipped f slot w st =
      round_open_array F (suc f) size result st slot w text (b']' ∷ rest) skipped
      ∙ round_close_array F f size result st slot (Value.array nil) (b']' ∷ rest) (Value.array nil)
          rest (skip_whitespace_stop b']' rest (bracket_space F format size result))

  empty_object : (level : ℕ) (rest : Bytes) → R (Value.object end) level rest
  unfolding emit need
  empty_object level rest text skipped f slot w st =
      round_open_object F (suc f) size result st slot w text (b'}' ∷ rest) skipped
      ∙ round_close_object F f size result st slot (Value.object end) (b'}' ∷ rest)
          (Value.object end) rest
          (skip_whitespace_stop b'}' rest (brace_space F format size result))

  -- The loop over the further elements and the closing bracket.
  abbrev ItemsRun : Items Double → ℕ → ℕ → Bytes → Type 0
  ItemsRun xs level level' rest =
      (y : Value Double) (ys : Items Double) (f : ℕ) (slot : Slot) (w : Value Double)
      (st : Stack Double)
      → go F (need_items xs (suc f)) (
          Q (entry array same (Value.array (cons y ys)) ∷ entry value slot w ∷ st)
            (emit_items F format level xs ++ close F format size result b']' level' rest))
        ≡ go F f
            (pop_state (Q (entry value slot (Value.array (items_append (cons y ys) xs)) ∷ st) rest))

  abbrev FieldsRun : Fields Double → ℕ → ℕ → Bytes → Type 0
  FieldsRun fs level level' rest =
      (j : Bytes) (u : Value Double) (gs : Fields Double)
      → Fresh (field j u gs) fs
      → (f : ℕ) (slot : Slot) (w : Value Double) (st : Stack Double)
      → go F (need_fields fs (suc f)) (
          Q (entry object same (Value.object (field j u gs)) ∷ entry value slot w ∷ st)
            (emit_fields F format level fs ++ close F format size result b'}' level' rest))
        ≡ go F f (
            pop_state
              (Q (entry value slot (Value.object (fields_append (field j u gs) fs)) ∷ st) rest))

  items_nil : (level level' : ℕ) (rest : Bytes) → ItemsRun nil level level' rest
  unfolding emit need
  items_nil level level' rest y ys f slot w st =
      close_array level' f slot (Value.array (cons y ys)) w st rest
      ∙ ap (λ zs. go F f (pop_state (Q (entry value slot (Value.array (cons y zs)) ∷ st) rest)))
          (items_append-nil ys)

  fields_end : (level level' : ℕ) (rest : Bytes) → FieldsRun end level level' rest
  unfolding emit need
  fields_end level level' rest j u gs fresh f slot w st =
      close_object level' f slot (Value.object (field j u gs)) w st rest
      ∙ ap (λ zs. go F f (pop_state (Q (entry value slot (Value.object (field j u zs)) ∷ st) rest)))
          (fields_append-end gs)

  items_cons :
      (x : Value Double) (xs : Items Double) (level level' : ℕ) (rest : Bytes)
      → Prints F x
      → R x level (emit_items F format level xs ++ close F format size result b']' level' rest)
      → ItemsRun xs level level' rest
      → ItemsRun (cons x xs) level level' rest
  unfolding need
  items_cons x xs level level' rest h reads run y ys f slot w st =
      next_element F format size result x xs level (need_items xs (suc f)) _ y ys
        (entry value slot w ∷ st) h reads
      ∙ run y (push_back ys x) f slot w st
      ∙ ap (λ zs. go F f (pop_state (Q (entry value slot (Value.array (cons y zs)) ∷ st) rest)))
          (items_append-push_back ys x xs)

  fields_cons :
      (k : Bytes) (v : Value Double) (fs : Fields Double) (level level' : ℕ) (rest : Bytes)
      → Prints F v
      → contains k fs ≡ false
      → R v level (emit_fields F format level fs ++ close F format size result b'}' level' rest)
      → FieldsRun fs level level' rest
      → FieldsRun (field k v fs) level level' rest
  unfolding need
  fields_cons k v fs level level' rest h new reads run j u gs (fresh, others) f slot w st =
      next_member F format size result k v fs level (need_fields fs (suc f)) _ j u gs
        (entry value slot w ∷ st) h fresh reads
      ∙ run j u (fields_append gs (field k v end))
          (Fresh-fields_append (field j u gs) k v fs others new) f slot w st
      ∙ ap (λ zs. go F f (pop_state (Q (entry value slot (Value.object (field j u zs)) ∷ st) rest)))
          (fields_append_assoc gs (field k v end) fs)

  array_cons :
      (x : Value Double) (xs : Items Double) (level : ℕ) (rest : Bytes)
      → Prints F x
      → R x
          (level + 1)
          (emit_items F format (level + 1) xs ++ close F format size result b']' level rest)
      → ItemsRun xs (level + 1) level rest
      → R (Value.array (cons x xs)) level rest
  unfolding need
  array_cons x xs level rest h reads run text skipped f slot w st =
      let v = Value.array nil in
      round_open_array F _ size result st slot w text
        (emit_array F format level (cons x xs) ++ rest) (unfold emit in skipped)
      ∙ ap
          (λ t.
            go F (need_array (cons x xs) f) (Q (entry array same v ∷ entry value slot v ∷ st) t))
          (emit_array-append F format level x xs rest)
      ∙ first_element F format size result x (level + 1) (level + 1) (need_items xs (suc f)) _
          (entry value slot v ∷ st) h reads
      ∙ run x nil f slot v st

  object_field :
      (k : Bytes) (v : Value Double) (fs : Fields Double) (level : ℕ) (rest : Bytes)
      → Prints F v
      → contains k fs ≡ false
      → R v
          (level + 1)
          (emit_fields F format (level + 1) fs ++ close F format size result b'}' level rest)
      → FieldsRun fs (level + 1) level rest
      → R (Value.object (field k v fs)) level rest
  unfolding need
  object_field k v fs level rest h new reads run text skipped f slot w st =
      let o = Value.object end in
      round_open_object F _ size result st slot w text
        (emit_object F format level (field k v fs) ++ rest) (unfold emit in skipped)
      ∙ ap
          (λ t.
            go F (need_object (field k v fs) f)
              (Q (entry object same o ∷ entry value slot o ∷ st) t))
          (emit_object-append F format level k v fs rest)
      ∙ first_member F format size result k v (level + 1) (level + 1) (need_fields fs (suc f)) _
          (entry value slot o ∷ st) h reads
      ∙ run k v end (Fresh-fields_append end k v fs (Fresh-end fs) new) f slot o st

  mutual
    pub value_run :
        (v : Value Double) (level : ℕ) (rest : Bytes)
        → Prints F v
        → Stops is_number_char rest
        → R v level rest
    value_run null level rest h stop = null-Reads F format size result level rest stop
    value_run (boolean b) level rest h stop = boolean-Reads F format size result level rest stop b
    value_run (integer n) level rest h stop = integer-Reads F format size result level rest stop n h
    value_run (decimal d) level rest h stop = decimal-Reads F format size result level rest stop d h
    value_run (string s) level rest h stop = string-Reads F format size result level rest stop s
    value_run (Value.array nil) level rest h stop = empty_array level rest
    value_run (Value.array (cons x xs)) level rest (hx, hs) stop =
        array_cons x xs level rest hx
          (value_run x (level + 1) _ hx (
            emit_items-Stops F format (level + 1) level b']' xs rest
              (bracket_stops F format size result)))
          (items_run xs (level + 1) level rest hs)
    value_run (Value.object end) level rest h stop = empty_object level rest
    value_run (Value.object (field k v fs)) level rest (new, hv, hs) stop =
        object_field k v fs level rest hv new
          (value_run v (level + 1) _ hv (
            emit_fields-Stops F format (level + 1) level b'}' fs rest
              (brace_stops F format size result)))
          (fields_run fs (level + 1) level rest hs)

    items_run :
        (xs : Items Double) (level level' : ℕ) (rest : Bytes)
        → PrintsItems F xs
        → ItemsRun xs level level' rest
    items_run nil level level' rest h = items_nil level level' rest
    items_run (cons x xs) level level' rest (hx, hs) =
        items_cons x xs level level' rest hx
          (value_run x level _ hx (
            emit_items-Stops F format level level' b']' xs rest
              (bracket_stops F format size result)))
          (items_run xs level level' rest hs)

    fields_run :
        (fs : Fields Double) (level level' : ℕ) (rest : Bytes)
        → PrintsFields F fs
        → FieldsRun fs level level' rest
    fields_run end level level' rest h = fields_end level level' rest
    fields_run (field k v fs) level level' rest (new, hv, hs) =
        fields_cons k v fs level level' rest hv new
          (value_run v level _ hv (
            emit_fields-Stops F format level level' b'}' fs rest
              (brace_stops F format size result)))
          (fields_run fs level level' rest hs)
