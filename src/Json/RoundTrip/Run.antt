-- ===== src/Json/RoundTrip/Run.antt =====
-- The loop of `Parser::parse` over the text of a value: from any stack it ends with the value in the
-- place of the entry on top.
use lsp_framework_noec.Base.{
  ℤ, to_string_int, Fits, codes, ℕ, suc, ◌≡◌, ◌≢◌, refl, ap, sym, ◌∙◌, Bool, true, false, [], ◌∷◌,
  ◌++◌, Bytes, arith, is_alnum, is_space, is_digit, ok,
}
use lsp_framework_noec.Json.Value.{
  Value, Items, Fields, null, boolean, integer, decimal, string, end, field, push_back,
}
use lsp_framework_noec.Json.Floats.{Floats}
use lsp_framework_noec.Json.Object.{contains, subscript}
use lsp_framework_noec.Json.Literal.{to_string_literal}
use lsp_framework_noec.Json.Cursor.{skip_whitespace, front}
use lsp_framework_noec.Json.Scalar.{is_number_char, parse_simple_value}
use lsp_framework_noec.Json.Scalar.RoundTrip.{
  Stops, Survives, parse_string_value, parse_true, parse_false, parse_null, parse_integer_value,
  parse_decimal_value, IsNumberText, to_string_int-IsNumberText,
}
use lsp_framework_noec.Json.Parser.{
  value, object, array, Slot, same, back, member, entry, Stack, Parser, store, pop_state,
}
use lsp_framework_noec.Json.Parser.Rounds.{go, round_simple}
use lsp_framework_noec.Json.Printer.{new_line, emit}
use lsp_framework_noec.Json.Printer.Decimal.{decimal_text_untrimmed}
use lsp_framework_noec.Json.Printer.Text.{
  IsSpaces, skip_whitespace_spaces, skip_whitespace_stop, new_line-IsSpaces, Front, emit-Front,
}
use lsp_framework_noec.Json.RoundTrip.Containers.{
  need, set_back-push_back, fields_append, assign-subscript,
}

module _ (F : Floats) (format : Bool) (size : ℕ) (result : Value F.Double) where
  open F use {Double}

  abbrev pub at : Stack Double → Bytes → Parser Double
  at st rest = record { size = size; result = result; state_stack = st; rest = rest }

  -- `entry value slot w` on top and the text of `v` ahead.
  abbrev pub Runs : Value Double → Bytes → Bytes → Type 0
  Runs v text rest =
      (f : ℕ) (slot : Slot) (w : Value Double) (st : Stack Double)
      → go F (need v f) (at (entry value slot w ∷ st) text)
        ≡ go F f (pop_state (at (entry value slot v ∷ st) rest))

  scalar-Runs :
      (v : Value Double) (text rest t : Bytes)
      → Front t
      → skip_whitespace text ≡ t ++ rest
      → ((f : ℕ) → need v f ≡ suc f)
      → parse_simple_value F size (t ++ rest) ≡ ok (v, rest)
      → front t ≢ b'{'
      → front t ≢ b'['
      → Runs v text rest
  scalar-Runs v text rest t fr skipped one parsed n1 n2 f slot w st =
      ap (λ n. go F n (at (entry value slot w ∷ st) text)) (one f)
      ∙ round_simple F f size result st slot w text fr.first (fr.more ++ rest) rest v
          (rw fr.splits at skipped) (rw fr.splits at n1) (rw fr.splits at n2)
          (rw fr.splits at parsed)

  pub skip_to_front :
      (ws t rest : Bytes) (fr : Front t)
      → IsSpaces ws
      → skip_whitespace (ws ++ (t ++ rest)) ≡ fr.first ∷ (fr.more ++ rest)
  skip_to_front ws t rest fr h =
      skip_whitespace_spaces ws (t ++ rest) h
      ∙ ap (λ u. skip_whitespace (u ++ rest)) fr.splits
      ∙ skip_whitespace_stop fr.first (fr.more ++ rest) fr.opens.no_space

  -- The same text once the white space is gone.
  pub at-Front :
      (t rest : Bytes) (fr : Front t) → skip_whitespace (fr.first ∷ (fr.more ++ rest)) ≡ t ++ rest
  at-Front t rest fr =
      skip_whitespace_stop fr.first (fr.more ++ rest) fr.opens.no_space
      ∙ sym (ap (λ u. u ++ rest) fr.splits)

  pub pop_element :
      (x : Value Double) (ys : Items Double) (st : Stack Double) (rest : Bytes)
      → pop_state
          (at (entry value back x ∷ entry array same (Value.array (push_back ys null)) ∷ st) rest)
        ≡ at (entry array same (Value.array (push_back ys x)) ∷ st) rest
  unfolding pop_state store
  pop_element x ys st rest =
      ap (λ zs. at (entry array same (Value.array zs) ∷ st) rest) (set_back-push_back ys x null)

  pub pop_member :
      (k : Bytes) (v : Value Double) (fs : Fields Double) (st : Stack Double) (rest : Bytes)
      → contains k fs ≡ false
      → pop_state (
          at
            (entry value (member k) v ∷ entry object same (Value.object (subscript k fs)) ∷ st)
            rest)
        ≡ at (entry object same (Value.object (fields_append fs (field k v end))) ∷ st) rest
  unfolding pop_state store
  pop_member k v fs st rest fresh =
      ap (λ gs. at (entry object same (Value.object gs) ∷ st) rest) (assign-subscript k v fs fresh)

  -- The end of the text of an array or an object.
  abbrev pub close : ℕ → ℕ → Bytes → Bytes
  close c level rest = new_line format level ++ (c ∷ rest)

  pub skip_close :
      (c level : ℕ) (rest : Bytes)
      → is_space c ≡ false
      → skip_whitespace (close c level rest) ≡ c ∷ rest
  skip_close c level rest h =
      skip_whitespace_spaces (new_line format level) (c ∷ rest) (new_line-IsSpaces format level)
      ∙ skip_whitespace_stop c rest h

  pub comma_space : is_space b',' ≡ false
  unfolding is_space
  comma_space = refl

  pub bracket_space : is_space b']' ≡ false
  unfolding is_space
  bracket_space = refl

  pub brace_space : is_space b'}' ≡ false
  unfolding is_space
  brace_space = refl

  pub colon_space : is_space b':' ≡ false
  unfolding is_space
  colon_space = refl

  abbrev pub print : ℕ → Value Double → Bytes
  print = emit F format

  pub bracket_stops : is_number_char b']' ≡ false
  unfolding is_number_char is_alnum
  bracket_stops = refl

  pub brace_stops : is_number_char b'}' ≡ false
  unfolding is_number_char is_alnum
  brace_stops = refl

  -- Every text in which, behind white space, the print of `v` stands before `rest`.
  abbrev pub Reads : Value Double → ℕ → Bytes → Type 0
  Reads v level rest =
      (text : Bytes) → skip_whitespace text ≡ print level v ++ rest → Runs v text rest

  Stops-alnum : (rest : Bytes) → Stops is_number_char rest → Stops is_alnum rest
  unfolding is_number_char
  Stops-alnum [] h = tt
  Stops-alnum (c ∷ rest) h = ground arith

  number_front : (t : Bytes) → IsNumberText t → (front t ≢ b'{') × (front t ≢ b'[')
  unfolding is_digit
  number_front t n = let starts = n.starts in (ground arith, ground arith)

  module _ (level : ℕ) (rest : Bytes) (stop : Stops is_number_char rest) where
    pub null-Reads : Reads null level rest
    unfolding emit need
    null-Reads text skipped =
        scalar-Runs null text rest (codes "null") (emit-Front F format level null tt) skipped
          (λ f. refl) (parse_null F size rest (Stops-alnum rest stop)) (omega arith) (omega arith)

    pub boolean-Reads : (b : Bool) → Reads (boolean b) level rest
    unfolding emit need
    boolean-Reads true text skipped =
        scalar-Runs (boolean true) text rest (codes "true")
          (emit-Front F format level (boolean true) tt) skipped (λ f. refl)
          (parse_true F size rest (Stops-alnum rest stop)) (omega arith) (omega arith)
    boolean-Reads false text skipped =
        scalar-Runs (boolean false) text rest (codes "false")
          (emit-Front F format level (boolean false) tt) skipped (λ f. refl)
          (parse_false F size rest (Stops-alnum rest stop)) (omega arith) (omega arith)

    pub integer-Reads : (n : ℤ) → Fits 31 n → Reads (integer n) level rest
    unfolding emit need
    integer-Reads n h text skipped =
        let (n1, n2) = number_front (to_string_int n) (to_string_int-IsNumberText n) in
        scalar-Runs (integer n) text rest (to_string_int n)
          (emit-Front F format level (integer n) h) skipped (λ f. refl)
          (parse_integer_value F size n rest h stop) n1 n2

    pub decimal-Reads : (d : Double) → Survives F d → Reads (decimal d) level rest
    unfolding emit need
    decimal-Reads d h text skipped =
        let (n1, n2) = number_front (F.to_string d) h.is_number in
        let e = decimal_text_untrimmed F d in
        scalar-Runs (decimal d) text rest (F.to_string d)
          (rw e at (emit-Front F format level (decimal d) h)) (rw e at skipped) (λ f. refl)
          (parse_decimal_value F size d rest h stop) n1 n2

    pub string-Reads : (s : Bytes) → Reads (string s) level rest
    unfolding emit need
    string-Reads s text skipped =
        scalar-Runs (string s) text rest (to_string_literal s)
          (emit-Front F format level (string s) tt) skipped (λ f. refl)
          (parse_string_value F size s rest) (unfold to_string_literal in omega arith)
          (unfold to_string_literal in omega arith)
