-- ===== src/Json/RoundTrip/Whole.antt =====
-- `parse` and `stringify` as a pair.
use lsp_framework_noec.Base.{
  ℕ, zero, suc, ◌+◌, ◌*◌, ◌≤◌, ◌≡◌, ◌≢◌, refl, sym, ap, ◌∙◌, ◌⊎◌, inl, inr, Bool, [], ◌∷◌, ◌++◌,
  append-nil, length, arith, Outcome, ok, unexpected, terminate, out_of_fuel, ◌>>=◌,
}
use lsp_framework_noec.Json.Value.{Value, null}
use lsp_framework_noec.Json.Floats.{Floats}
use lsp_framework_noec.Json.Cursor.{ParseError, skip_whitespace}
use lsp_framework_noec.Json.Parser.{
  same, entry, Stack, Parser, store, pop_state, round, run, finish, initial, parse,
}
use lsp_framework_noec.Json.Parser.Rounds.{go}
use lsp_framework_noec.Json.Parser.Total.{parse-ne-out_of_fuel}
use lsp_framework_noec.Json.Printer.{emit, stringify}
use lsp_framework_noec.Json.Printer.Text.{Prints, emit-Front, skip_whitespace_stop}
use lsp_framework_noec.Json.RoundTrip.Containers.{need}
use lsp_framework_noec.Json.RoundTrip.Values.{value_run}

module _ (F : Floats) where
  open F use {Double}

  -- More fuel does not change a result.
  run_more :
      (f g : ℕ) (p : Parser Double) (st : Stack Double)
      → f ≤ g
      → run F f p st ≢ out_of_fuel
      → run F g p st ≡ run F f p st
  unfolding run
  run_more zero g p st h n = absurd (n refl)
  run_more (suc f) zero p st h n = absurd (omega arith)
  run_more (suc f) (suc g) p [] h n = refl
  run_more (suc f) (suc g) p (entry state slot v ∷ st) h n =
      onward (λ q. run_more f g q q.state_stack (omega arith)) (round F state p) n
    where
      onward :
          ((q : Parser Double)
            → run F f q q.state_stack ≢ out_of_fuel
            → run F g q q.state_stack ≡ run F f q q.state_stack)
          → (r : Outcome ParseError (Parser Double))
          → (r >>= λ q. run F f q q.state_stack) ≢ out_of_fuel
          → (r >>= λ q. run F g q q.state_stack) ≡ (r >>= λ q. run F f q q.state_stack)
      onward ih (ok q) n = ih q n
      onward ih (unexpected e) n = refl
      onward ih terminate n = refl
      onward ih out_of_fuel n = refl

  -- Two amounts of fuel with a result have the same one.
  run_agree :
      (f g : ℕ) (p : Parser Double) (st : Stack Double)
      → run F f p st ≢ out_of_fuel
      → run F g p st ≢ out_of_fuel
      → run F f p st ≡ run F g p st
  run_agree f g p st n m = order (grind arith)
    where
      order : ((f ≤ g) ⊎ (g ≤ f)) → run F f p st ≡ run F g p st
      order (inl h) = sym (run_more f g p st h n)
      order (inr h) = run_more g f p st h m

  run_text :
      (v : Value Double) (format : Bool)
      → Prints F v
      → go F (need v 1) (initial F (emit F format 0 v)) ≡ ok v
  run_text v format h =
      let text = emit F format 0 v in
      let fr = emit-Front F format 0 v h in
      let skipped : skip_whitespace text ≡ text ++ [] =
        ap skip_whitespace fr.splits
        ∙ skip_whitespace_stop fr.first fr.more fr.opens.no_space
        ∙ sym fr.splits
        ∙ sym (append-nil text) in
      value_run F format (length text) null v 0 [] h tt text skipped 1 same null []
      ∙ unfold run finish pop_state store skip_whitespace in refl

  -- `parse(stringify(v, format))` is `v`, formatted or not, for every value whose integers fit in 32
  -- bits, whose objects have no key twice, and whose decimals `std::stod` reads back from
  -- `std::to_string`.
  pub parse-stringify :
      (v : Value Double) (format : Bool) → Prints F v → parse F (stringify F v format) ≡ ok v
  unfolding stringify parse
  parse-stringify v format h =
      let text = emit F format 0 v in
      let ran = run_text v format h in
      run_agree (2 * length text + 2) (need v 1) (initial F text) (initial F text).state_stack
        (unfold parse in parse-ne-out_of_fuel F text) (λ e. cc (sym ran ∙ e))
      ∙ ran
