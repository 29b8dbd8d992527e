-- ===== src/Json/Parser.antt =====
-- The class `Parser` of lsp/json/json.cpp: a state machine on a stack, with no recursion.
pub mod Rounds
pub mod Ends
pub mod Total
use lsp_framework_noec.Base.{
  ℕ, zero, suc, ◌+◌, ◌*◌, not, ◌&&◌, ◌||◌, List, [], ◌∷◌, Bytes, length, ◌==◌, if◌then◌else◌,
  Outcome, ok, out_of_fuel, ◌>>=◌,
}
use lsp_framework_noec.Json.Value.{
  Value, Items, Fields, null, nil, end, push_back, set_back, items_empty,
}
use lsp_framework_noec.Json.Floats.{Floats}
use lsp_framework_noec.Json.Object.{contains, assign, subscript, empty}
use lsp_framework_noec.Json.Cursor.{
  ParseError, fail, front, tail, at_end, skip_whitespace, unexpected_end, trailing_characters,
  expected_comma, trailing_comma, expected_colon, duplicate_key,
}
use lsp_framework_noec.Json.Scalar.{parse_string, parse_simple_value}

pub data State : Type 0 where
  value object object_key array : State

-- Where the `Value*` of a stack entry points: at the same value as the entry below it (at `result`
-- for the first entry), at the last element of the array there, or at a member of the object there.
pub data Slot : Type 0 where
  same back : Slot
  member : Bytes → Slot

-- `StateStackEntry`, with the value that its pointer points at. What is written through the
-- pointer is put into the value around it when the entry is popped: no entry below is read before.
pub data StackEntry (D : Type 0) : Type 0 where
  entry : State → Slot → Value D → StackEntry D

-- The entries, the last one first.
abbrev pub Stack : Type 0 → Type 0
Stack D = List (StackEntry D)

pub record Parser (D : Type 0) : Type 0 where
  pub size : ℕ
  pub result : Value D
  pub state_stack : Stack D
  pub rest : Bytes

-- `handleObject` and `handleArray` from `if(!object.empty())` on: the text behind a comma that
-- no `close` follows.
unfoldable pub skip_comma : ℕ → ℕ → Bytes → Outcome ParseError Bytes
skip_comma size close at =
    let after = skip_whitespace (tail at) in
    if not (front at == b',')
    then fail size expected_comma at
    else if not (at_end after) && front after == close
    then fail size trailing_comma at
    else ok after

module _ {D : Type 0} where
  -- A write of `v` through a pointer into `whole`.
  unfoldable pub store : Slot → Value D → Value D → Value D
  store back v (Value.array xs) = Value.array (set_back xs v)
  store (member key) v (Value.object fs) = Value.object (assign key v fs)
  store same v whole = v
  store _ v whole = whole

  unfoldable pub current_value : Stack D → Value D
  current_value [] = null
  current_value (entry state slot v ∷ st) = v

  -- `currentValueAs<Object>()` and `currentValueAs<Array>()`.
  unfoldable pub current_object : Stack D → Fields D
  unfolding current_value
  current_object st = elim (current_value st) [ Value.object fs ↦ fs | _ ↦ end ]

  unfoldable pub current_array : Stack D → Items D
  unfolding current_value
  current_array st = elim (current_value st) [ Value.array xs ↦ xs | _ ↦ nil ]

  -- `currentValue() = v`.
  unfoldable pub set_current : Value D → Stack D → Stack D
  set_current v [] = []
  set_current v (entry state slot w ∷ st) = entry state slot v ∷ st

  abbrev pub push_state : State → Slot → Value D → Parser D → Parser D
  push_state state slot v p = record p { state_stack = entry state slot v ∷ p.state_stack }

  pop_stack : Parser D → Stack D → Parser D
  unfolding store
  pop_stack p [] = p
  pop_stack p (entry state slot v ∷ []) = record p {
    result = store slot v p.result;
    state_stack = [];
  }
  pop_stack p (entry state slot v ∷ entry below slot' w ∷ st) = record p {
    state_stack = entry below slot' (store slot v w) ∷ st;
  }

  unfoldable pub pop_state : Parser D → Parser D
  unfolding pop_stack
  pop_state p = pop_stack p p.state_stack

  abbrev pub move_to : Bytes → Parser D → Parser D
  move_to at p = record p { rest = at }

  unfoldable pub handle_object : Parser D → Outcome ParseError (Parser D)
  unfolding skip_comma current_object
  handle_object p =
      let key = (do
        at ←
            if empty (current_object p.state_stack)
            then ok p.rest
            else skip_comma p.size b'}' p.rest
        ok (push_state object_key same (current_value p.state_stack) (move_to at p))) in
      if front p.rest == b'}' then ok (pop_state (pop_state (move_to (tail p.rest) p))) else key

  unfoldable pub handle_array : Parser D → Outcome ParseError (Parser D)
  unfolding skip_comma current_array set_current
  handle_array p =
      let element = (do
        at ←
            if items_empty (current_array p.state_stack)
            then ok p.rest
            else skip_comma p.size b']' p.rest
        let longer = Value.array (push_back (current_array p.state_stack) null)
        ok (
            push_state value back null
              (record p { state_stack = set_current longer p.state_stack; rest = at }))) in
      if front p.rest == b']' then ok (pop_state (pop_state (move_to (tail p.rest) p))) else element

  -- The key is read; `p` is behind it.
  unfoldable pub insert_key : Bytes → Parser D → Parser D
  unfolding current_object set_current
  insert_key key p =
      let popped = pop_state p in
      let longer = Value.object (subscript key (current_object popped.state_stack)) in
      push_state value (member key) null
        (record popped { state_stack = set_current longer popped.state_stack })

  unfoldable pub handle_object_key : Parser D → Outcome ParseError (Parser D)
  unfolding insert_key
  handle_object_key p = do
    (key, rest) ← parse_string p.size p.rest
    let after = skip_whitespace rest
    if contains key (current_object p.state_stack)
        then fail p.size (duplicate_key key) p.rest
        else if at_end after || not (front after == b':')
        then fail p.size expected_colon after
        else ok (insert_key key (move_to (tail after) p))

module _ (F : Floats) where
  open F use {Double}

  unfoldable pub handle_value : Parser Double → Outcome ParseError (Parser Double)
  handle_value p =
      let open_as = λ (v : Value Double) (state : State).
        push_state state same v
          (record p { state_stack = set_current v p.state_stack; rest = tail p.rest }) in
      let simple = (do
        (v, at) ← parse_simple_value F p.size p.rest
        ok (pop_state (record p { state_stack = set_current v p.state_stack; rest = at }))) in
      if front p.rest == b'{'
      then ok (open_as (Value.object end) object)
      else if front p.rest == b'['
      then ok (open_as (Value.array nil) array)
      else simple

  -- The `switch` on `currentState()`.
  unfoldable pub dispatch : State → Parser Double → Outcome ParseError (Parser Double)
  dispatch value p = handle_value p
  dispatch object p = handle_object p
  dispatch object_key p = handle_object_key p
  dispatch array p = handle_array p

  -- What follows the loop.
  unfoldable pub finish : Parser Double → Outcome ParseError (Value Double)
  finish p =
      let after = skip_whitespace p.rest in
      if at_end after then ok p.result else fail p.size trailing_characters after

  -- One round of the loop, in the state on top of the stack.
  unfoldable pub round : State → Parser Double → Outcome ParseError (Parser Double)
  round state p =
      let after = skip_whitespace p.rest in
      if at_end after then fail p.size unexpected_end after else dispatch state (move_to after p)

  unfoldable pub run : ℕ → Parser Double → Stack Double → Outcome ParseError (Value Double)
  run zero p st = out_of_fuel
  run (suc fuel) p [] = finish p
  run (suc fuel) p (entry state slot v ∷ st) = do p' ← round state p; run fuel p' p'.state_stack

  -- The constructor, with the first `pushState` of `parse`.
  abbrev pub initial : Bytes → Parser Double
  initial text = record {
    size = length text;
    result = null;
    state_stack = entry value same null ∷ [];
    rest = text;
  }

  -- Each round reads a character or replaces `object` or `array` on top of the stack.
  unfoldable pub parse : Bytes → Outcome ParseError (Value Double)
  parse text = run (2 * length text + 2) (initial text) (initial text).state_stack
