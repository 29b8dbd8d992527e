-- ===== src/Json/Parser/Total.antt =====
-- The loop of `Parser::parse` ends: each round reads a character, or leaves `Object` or `Array` on top
-- of the stack for `ObjectKey` or `Value`.
use lsp_framework_noec.Base.{
  ℕ, zero, suc, ◌+◌, ◌*◌, ◌≤◌, ◌<◌, ◌≡◌, ◌≢◌, refl, Bool, true, false, not, ◌&&◌, ◌||◌, [], ◌∷◌,
  Bytes, length, ◌==◌, if◌then◌else◌, arith, ok, out_of_fuel,
}
use lsp_framework_noec.Json.Object.{contains, empty}
use lsp_framework_noec.Json.Value.{Value, items_empty}
use lsp_framework_noec.Json.Floats.{Floats}
use lsp_framework_noec.Json.Cursor.{unexpected_end, fail, front, tail, at_end, skip_whitespace}
use lsp_framework_noec.Json.Parser.{
  Slot, current_object, current_array, move_to, State, value, object, object_key, array, entry,
  Stack, Parser, pop_stack, pop_state, skip_comma, handle_object, handle_array, handle_object_key,
  insert_key, handle_value, dispatch, round, run, finish, initial, parse,
}
use lsp_framework_noec.Json.Parser.Ends.{
  Ends, Ends-bind, Ends-if, Ends-weaken, Ends-ne, Shorter, length-skip_whitespace,
  parse_string-Ends, parse_simple_value-Ends,
}

length-tail : (s : Bytes) → length (tail s) ≤ length s
length-tail [] = omega arith
length-tail (c ∷ s) = omega arith

abbrev NoLonger : Bytes → Bytes → Type 0
NoLonger s at = length at ≤ length s

skip_comma-Ends : (size close : ℕ) (s : Bytes) → Ends (NoLonger s) (skip_comma size close s)
unfolding skip_comma
skip_comma-Ends size close s =
    let after = skip_whitespace (tail s) in
    Ends-if (NoLonger s) (not (front s == b',')) _ _ (λ _. tt)
      (λ _.
        Ends-if (NoLonger s) (not (at_end after) && front after == close) _ _ (λ _. tt)
          (λ _. omega (arith, length-skip_whitespace (tail s), length-tail s)))

skip_comma_unless-Ends :
    (b : Bool) (size close : ℕ) (s : Bytes)
    → Ends (NoLonger s) (if b then ok s else skip_comma size close s)
skip_comma_unless-Ends true size close s = omega arith
skip_comma_unless-Ends false size close s = skip_comma-Ends size close s

abbrev weight : {D : Type 0} → Stack D → ℕ
weight [] = 0
weight (entry object slot v ∷ st) = 1
weight (entry array slot v ∷ st) = 1
weight (entry _ slot v ∷ st) = 0

-- What falls from round to round.
abbrev measure : {D : Type 0} → Parser D → ℕ
measure p = 2 * length p.rest + weight p.state_stack

module _ {D : Type 0} where
  weight-le : (st : Stack D) → weight st ≤ 1
  weight-le [] = omega arith
  weight-le (entry object slot v ∷ st) = omega arith
  weight-le (entry array slot v ∷ st) = omega arith
  weight-le (entry value slot v ∷ st) = omega arith
  weight-le (entry object_key slot v ∷ st) = omega arith

  pop_stack-rest : (p : Parser D) (st : Stack D) → (pop_stack p st).rest ≡ p.rest
  unfolding pop_stack
  pop_stack-rest p [] = refl
  pop_stack-rest p (entry state slot v ∷ []) = refl
  pop_stack-rest p (entry state slot v ∷ entry below slot' w ∷ st) = refl

  pop_state-rest : (p : Parser D) → (pop_state p).rest ≡ p.rest
  unfolding pop_state
  pop_state-rest p = pop_stack-rest p p.state_stack

  -- A round that leaves less text.
  measure_shorter :
      (n : ℕ) (s : Bytes) (p : Parser D) → length p.rest < length s → measure p < 2 * length s + n
  measure_shorter n s p h = omega (arith, weight-le p.state_stack)

  measure-pop_state :
      (n : ℕ) (s : Bytes) (p : Parser D)
      → length p.rest < length s
      → measure (pop_state p) < 2 * length s + n
  measure-pop_state n s p h = measure_shorter n s (pop_state p) (rw (pop_state-rest p) h)

  measure-pop_twice :
      (n : ℕ) (s : Bytes) (p : Parser D)
      → length p.rest < length s
      → measure (pop_state (pop_state p)) < 2 * length s + n
  measure-pop_twice n s p h = measure-pop_state n s (pop_state p) (rw (pop_state-rest p) h)

  handle_object-Ends :
      (p : Parser D) (c : ℕ) (s : Bytes)
      → p.rest ≡ c ∷ s
      → Ends (λ q. measure q < 2 * length p.rest + 1) (handle_object p)
  unfolding handle_object
  handle_object-Ends p c s e =
      Ends-if (λ q. measure q < 2 * length p.rest + 1) (front p.rest == b'}') _ _
        (λ _. measure-pop_twice 1 p.rest _ (rw e (omega arith)))
        (λ _.
          Ends-bind (NoLonger p.rest) (λ q. measure q < 2 * length p.rest + 1) _ _
            (skip_comma_unless-Ends (empty (current_object p.state_stack)) p.size b'}' p.rest)
            (λ at h. omega arith))

  handle_array-Ends :
      (p : Parser D) (c : ℕ) (s : Bytes)
      → p.rest ≡ c ∷ s
      → Ends (λ q. measure q < 2 * length p.rest + 1) (handle_array p)
  unfolding handle_array
  handle_array-Ends p c s e =
      Ends-if (λ q. measure q < 2 * length p.rest + 1) (front p.rest == b']') _ _
        (λ _. measure-pop_twice 1 p.rest _ (rw e (omega arith)))
        (λ _.
          Ends-bind (NoLonger p.rest) (λ q. measure q < 2 * length p.rest + 1) _ _
            (skip_comma_unless-Ends (items_empty (current_array p.state_stack)) p.size b']' p.rest)
            (λ at h. omega arith))

  insert_key-measure :
      (key s : Bytes) (p : Parser D)
      → length p.rest < length s
      → measure (insert_key key p) < 2 * length s + 0
  unfolding insert_key
  insert_key-measure key s p h = rw (pop_state-rest p) (omega arith)

  handle_object_key-Ends :
      (p : Parser D) → Ends (λ q. measure q < 2 * length p.rest + 0) (handle_object_key p)
  unfolding handle_object_key
  handle_object_key-Ends p =
      Ends-bind (Shorter p.rest) (λ q. measure q < 2 * length p.rest + 0) _ _
        (parse_string-Ends p.size p.rest)
        (λ r h.
          let after = skip_whitespace r.1 in
          Ends-if (λ q. measure q < 2 * length p.rest + 0)
            (contains r.0 (current_object p.state_stack)) _ _ (λ _. tt)
            (λ _.
              Ends-if (λ q. measure q < 2 * length p.rest + 0)
                (at_end after || not (front after == b':')) _ _ (λ _. tt)
                (λ _.
                  let less : length (tail after) < length p.rest =
                    omega (arith, length-skip_whitespace r.1, length-tail after, h) in
                  insert_key-measure r.0 p.rest (move_to (tail after) p) less)))

finish-Ends : (F : Floats) (p : Parser F.Double) → Ends (λ v. Unit {0}) (finish F p)
unfolding finish
finish-Ends F p = Ends-if (λ v. Unit) (at_end (skip_whitespace p.rest)) _ _ (λ _. tt) (λ _. tt)

module _ (F : Floats) where
  open F use {Double}

  handle_value-Ends :
      (p : Parser Double) (c : ℕ) (s : Bytes)
      → p.rest ≡ c ∷ s
      → Ends (λ q. measure q < 2 * length p.rest + 0) (handle_value F p)
  unfolding handle_value
  handle_value-Ends p c s e = rw e (
      Ends-if (λ q. measure q < 2 * length (c ∷ s) + 0) (c == b'{') _ _ (λ _. omega arith)
        (λ _.
          Ends-if (λ q. measure q < 2 * length (c ∷ s) + 0) (c == b'[') _ _ (λ _. omega arith)
            (λ _.
              Ends-bind (Shorter (c ∷ s)) (λ q. measure q < 2 * length (c ∷ s) + 0) _ _
                (parse_simple_value-Ends F p.size c s) (λ r h. measure-pop_state 0 (c ∷ s) _ h))))

  -- The weight of the entry on top, by its state.
  abbrev weight_in : State → ℕ
  weight_in object = 1
  weight_in array = 1
  weight_in _ = 0

  dispatch-Ends :
      (state : State) (p : Parser Double) (c : ℕ) (s : Bytes)
      → p.rest ≡ c ∷ s
      → Ends (λ q. measure q < 2 * length p.rest + weight_in state) (dispatch F state p)
  unfolding dispatch
  dispatch-Ends value p c s e = handle_value-Ends p c s e
  dispatch-Ends object p c s e = handle_object-Ends p c s e
  dispatch-Ends object_key p c s e = handle_object_key-Ends p
  dispatch-Ends array p c s e = handle_array-Ends p c s e

  round-Ends :
      (state : State) (p : Parser Double)
      → Ends (λ q. measure q < 2 * length p.rest + weight_in state) (round F state p)
  unfolding round
  round-Ends state p = go (skip_whitespace p.rest) (length-skip_whitespace p.rest)
    where
      go :
          (after : Bytes)
          → length after ≤ length p.rest
          → Ends
              (λ q. measure q < 2 * length p.rest + weight_in state)
              (if at_end after
                then fail p.size unexpected_end after
                else dispatch F state (move_to after p))
      go [] h = tt
      go (c ∷ s) h =
          Ends-weaken (λ q. measure q < 2 * length (c ∷ s) + weight_in state)
            (λ q. measure q < 2 * length p.rest + weight_in state) _
            (dispatch-Ends state (move_to (c ∷ s) p) c s refl) (λ q k. omega arith)

  weight-weight_in :
      (state : State) (slot : Slot) (v : Value Double) (st : Stack Double)
      → weight (entry state slot v ∷ st) ≡ weight_in state
  weight-weight_in value slot v st = refl
  weight-weight_in object slot v st = refl
  weight-weight_in object_key slot v st = refl
  weight-weight_in array slot v st = refl

  -- With a unit of fuel for each unit of the measure, and one more, the loop ends.
  run-Ends :
      (fuel : ℕ) (p : Parser Double) (st : Stack Double)
      → st ≡ p.state_stack
      → 2 * length p.rest + weight st < fuel
      → Ends (λ v. Unit {0}) (run F fuel p st)
  unfolding run
  run-Ends zero p st e h = absurd (omega arith)
  run-Ends (suc fuel) p [] e h = finish-Ends F p
  run-Ends (suc fuel) p (entry state slot v ∷ st) e h =
      Ends-bind (λ q. measure q < 2 * length p.rest + weight_in state) (λ v. Unit) (round F state p)
        _ (round-Ends state p)
        (λ q less.
          run-Ends fuel q q.state_stack refl (omega (arith, weight-weight_in state slot v st)))

  -- `parse` comes to an end on every text: the fuel that the model of its loop is given suffices.
  pub parse-ne-out_of_fuel : (text : Bytes) → parse F text ≢ out_of_fuel
  unfolding parse
  parse-ne-out_of_fuel text =
      Ends-ne (λ v. Unit) _ (run-Ends (2 * length text + 2) (initial F text) _ refl (omega arith))
