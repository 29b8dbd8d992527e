-- ===== src/Json/Parser/Rounds.antt =====
-- What one round of the loop of `Parser::parse` does, in each state and at each kind of character.
use lsp_framework_noec.Base.{ℕ, suc, ◌≡◌, ◌≢◌, refl, false, ◌∷◌, Bytes, ◌==◌, arith, ok, Outcome}
use lsp_framework_noec.Json.Value.{Value, Items, Fields, null, nil, cons, end, field, push_back}
use lsp_framework_noec.Json.Floats.{Floats}
use lsp_framework_noec.Json.Object.{contains, subscript}
use lsp_framework_noec.Json.Cursor.{ParseError, skip_whitespace}
use lsp_framework_noec.Json.Scalar.{parse_string, parse_simple_value}
use lsp_framework_noec.Json.Parser.{
  value, object, object_key, array, Slot, same, back, member, entry, Stack, Parser, store,
  current_value, current_object, set_current, pop_state, handle_object, handle_array,
  handle_object_key, insert_key, handle_value, dispatch, round, run,
}

module _ (F : Floats) (size : ℕ) (result : Value F.Double) where
  open F use {Double}

  abbrev pub at_state : Stack Double → Bytes → Parser Double
  at_state st rest = record { size = size; result = result; state_stack = st; rest = rest }

module _ (F : Floats) where
  open F use {Double}

  -- The loop from a state on.
  abbrev pub go : ℕ → Parser Double → Outcome ParseError (Value Double)
  go f p = run F f p p.state_stack

module _ (F : Floats) (f size : ℕ) (result : Value F.Double) (st : Stack F.Double) where
  open F use {Double}

  abbrev pub P : Stack Double → Bytes → Parser Double
  P = at_state F size result

  module _ (slot : Slot) (w : Value Double) (text : Bytes) where
    pub round_simple :
        (c : ℕ) (s rest : Bytes) (v : Value Double)
        → skip_whitespace text ≡ c ∷ s
        → c ≢ b'{'
        → c ≢ b'['
        → parse_simple_value F size (c ∷ s) ≡ ok (v, rest)
        → go F (suc f) (P (entry value slot w ∷ st) text)
          ≡ go F f (pop_state (P (entry value slot v ∷ st) rest))
    unfolding run round dispatch handle_value set_current
    round_simple c s rest v skipped no_brace no_bracket parsed =
        let b : (c == b'{') ≡ false = ground arith in
        let a : (c == b'[') ≡ false = ground arith in rw skipped (rw (b, a) (rw parsed))

    pub round_open_array :
        (rest : Bytes)
        → skip_whitespace text ≡ b'[' ∷ rest
        → go F (suc f) (P (entry value slot w ∷ st) text)
          ≡ go F f (
              P (entry array same (Value.array nil) ∷ entry value slot (Value.array nil) ∷ st) rest)
    unfolding run round dispatch handle_value set_current
    round_open_array rest skipped = rw skipped

    pub round_open_object :
        (rest : Bytes)
        → skip_whitespace text ≡ b'{' ∷ rest
        → go F (suc f) (P (entry value slot w ∷ st) text)
          ≡ go F f (
              P
                (entry object same (Value.object end) ∷ entry value slot (Value.object end) ∷ st)
                rest)
    unfolding run round dispatch handle_value set_current
    round_open_object rest skipped = rw skipped

    pub round_close_array :
        (v : Value Double) (rest : Bytes)
        → skip_whitespace text ≡ b']' ∷ rest
        → go F (suc f) (P (entry array same v ∷ entry value slot w ∷ st) text)
          ≡ go F f (pop_state (P (entry value slot v ∷ st) rest))
    unfolding run round dispatch handle_array
    round_close_array v rest skipped = rw skipped (unfold pop_state store in refl)

    pub round_close_object :
        (v : Value Double) (rest : Bytes)
        → skip_whitespace text ≡ b'}' ∷ rest
        → go F (suc f) (P (entry object same v ∷ entry value slot w ∷ st) text)
          ≡ go F f (pop_state (P (entry value slot v ∷ st) rest))
    unfolding run round dispatch handle_object
    round_close_object v rest skipped = rw skipped (unfold pop_state store in refl)

  module _ (text : Bytes) (c : ℕ) (s : Bytes) where
    pub round_first_element :
        skip_whitespace text ≡ c ∷ s
        → c ≢ b']'
        → go F (suc f) (P (entry array same (Value.array nil) ∷ st) text)
          ≡ go F f (
              P
                (entry value back null ∷ entry array same (Value.array (push_back nil null)) ∷ st)
                (c ∷ s))
    unfolding run round dispatch handle_array
    round_first_element skipped n = let a : (c == b']') ≡ false = ground arith in rw skipped (rw a)

    pub round_next_element :
        (y : Value Double) (ys : Items Double) (at : Bytes)
        → skip_whitespace text ≡ b',' ∷ at
        → skip_whitespace at ≡ c ∷ s
        → c ≢ b']'
        → go F (suc f) (P (entry array same (Value.array (cons y ys)) ∷ st) text)
          ≡ go F f (
              P
                (entry value back null
                  ∷ entry array same (Value.array (push_back (cons y ys) null))
                  ∷ st)
                (c ∷ s))
    unfolding run round dispatch handle_array
    round_next_element y ys at skipped skipped' n =
        let a : (c == b']') ≡ false = ground arith in rw skipped (rw skipped' (rw a))

    pub round_first_key :
        skip_whitespace text ≡ c ∷ s
        → c ≢ b'}'
        → go F (suc f) (P (entry object same (Value.object end) ∷ st) text)
          ≡ go F f (
              P
                (entry object_key same (Value.object end)
                  ∷ entry object same (Value.object end)
                  ∷ st)
                (c ∷ s))
    unfolding run round dispatch handle_object current_value
    round_first_key skipped n = let a : (c == b'}') ≡ false = ground arith in rw skipped (rw a)

    pub round_next_key :
        (k : Bytes) (v : Value Double) (fs : Fields Double) (at : Bytes)
        → skip_whitespace text ≡ b',' ∷ at
        → skip_whitespace at ≡ c ∷ s
        → c ≢ b'}'
        → go F (suc f) (P (entry object same (Value.object (field k v fs)) ∷ st) text)
          ≡ go F f (
              P
                (entry object_key same (Value.object (field k v fs))
                  ∷ entry object same (Value.object (field k v fs))
                  ∷ st)
                (c ∷ s))
    unfolding run round dispatch handle_object current_value
    round_next_key k v fs at skipped skipped' n =
        let a : (c == b'}') ≡ false = ground arith in rw skipped (rw skipped' (rw a))

    -- A key that the object does not have yet, and its colon.
    pub round_key :
        (fs : Fields Double) (w : Value Double) (key rest at : Bytes)
        → skip_whitespace text ≡ c ∷ s
        → parse_string size (c ∷ s) ≡ ok (key, rest)
        → contains key fs ≡ false
        → skip_whitespace rest ≡ b':' ∷ at
        → go F (suc f) (P (entry object_key same (Value.object fs) ∷ entry object same w ∷ st) text)
          ≡ go F f (
              P
                (entry value (member key) null
                  ∷ entry object same (Value.object (subscript key fs))
                  ∷ st)
                at)
    unfolding run round dispatch handle_object_key
    round_key fs w key rest at skipped parsed fresh skipped' = rw skipped (
        rw parsed (
          unfold current_object in
          rw fresh (rw skipped' (unfold insert_key pop_state store set_current in refl))))
