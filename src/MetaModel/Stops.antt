-- ===== src/MetaModel/Stops.antt =====
-- Calls on the JSON of the meta model that come to an end, and how much JSON they give.
use lsp_framework_noec.Base.{
  ℕ, ◌+◌, ◌≤◌, ◌<◌, ◌≡◌, refl, Bool, true, false, Option, none, some, Bytes, codes, bytes_eq,
  if◌then◌else◌, Outcome, ok, unexpected, terminate, out_of_fuel, ◌>>=◌, arith,
}
use lsp_framework_noec.Json.Value.{Value, Items, Fields, end, field}
use lsp_framework_noec.Json.Object.{get, find, contains, missing_key}
use lsp_framework_noec.Json.Parser.Ends.{Ends, Ends-bind, Ends-if}
use lsp_framework_noec.Jsonrpc.{as_string, as_object}
use lsp_framework_noec.Serialization.Serial.{value_of}
use lsp_framework_noec.Serialization.Scalars.{as_boolean, as_array}
use lsp_framework_noec.MetaModel.Extract.{
  found, text_member, object_member, array_member, boolean_member, extract_documentation,
  extract_optional, weight, items_weight, fields_weight,
}

abbrev pub Anything : {A : Type 0} → A → Type 0
Anything a = Unit

-- The call comes to an end.
abbrev pub Stops : {A : Type 0} → Outcome ⊥ A → Type 0
Stops = Ends Anything

pub Stops-bind :
    {A B : Type 0} (m : Outcome ⊥ A) (f : A → Outcome ⊥ B)
    → Stops m
    → ((a : A) → Stops (f a))
    → Stops (m >>= f)
Stops-bind m f h k = Ends-bind (λ _. Unit) (λ _. Unit) m f h (λ a _. k a)

pub found-Stops : {A : Type 0} (o : Option A) → Stops (found o)
found-Stops none = tt
found-Stops (some a) = tt

module _ {D : Type 0} where
  abbrev Lighter : ℕ → Option (Value D) → Type 0
  Lighter n none = Unit
  Lighter n (some v) = weight v ≤ n

  pub Lighter-if :
      (n m : ℕ) (b : Bool) (v : Value D) (o : Option (Value D))
      → weight v ≤ n
      → Lighter m o
      → m ≤ n
      → Lighter n (if b then some v else o)
  Lighter-if n m true v o h k l = h
  Lighter-if n m false v none h k l = tt
  Lighter-if n m false v (some w) h k l = omega arith

  pub find-Lighter : (key : Bytes) (fs : Fields D) → Lighter (fields_weight fs) (find key fs)
  unfolding find fields_weight
  find-Lighter key end = tt
  find-Lighter key (field k v fs) =
      Lighter-if (weight v + fields_weight fs) (fields_weight fs) (bytes_eq k key) v (find key fs)
        (omega arith) (find-Lighter key fs) (omega arith)

  pub value-Ends :
      (key : Bytes) (n : ℕ) (o : Option (Value D))
      → Lighter n o
      → Ends
          (λ v. weight v ≤ n)
          (value_of (elim o [ none ↦ unexpected (missing_key key) | some v ↦ ok v ]))
  value-Ends key n none h = tt
  value-Ends key n (some v) h = h

  pub text-Stops : (v : Value D) → Stops (value_of (as_string v))
  text-Stops (Value.string s) = tt
  text-Stops _ = tt

  pub boolean-Stops : (v : Value D) → Stops (value_of (as_boolean v))
  boolean-Stops (Value.boolean b) = tt
  boolean-Stops _ = tt

  pub object-Ends :
      (v : Value D) → Ends (λ gs. fields_weight gs < weight v) (value_of (as_object v))
  unfolding weight
  object-Ends (Value.object fs) = omega arith
  object-Ends _ = tt

  pub array-Ends : (v : Value D) → Ends (λ xs. items_weight xs < weight v) (value_of (as_array v))
  unfolding weight
  array-Ends (Value.array xs) = omega arith
  array-Ends _ = tt

module _ {D B : Type 0} where
  pub then_object :
      (Q : B → Type 0) (v : Value D) (f : Fields D → Outcome ⊥ B)
      → ((gs : Fields D) → fields_weight gs < weight v → Ends Q (f gs))
      → Ends Q (value_of (as_object v) >>= f)
  then_object Q v f = Ends-bind (λ gs. fields_weight gs < weight v) Q _ f (object-Ends v)

  pub then_array :
      (Q : B → Type 0) (v : Value D) (f : Items D → Outcome ⊥ B)
      → ((xs : Items D) → items_weight xs < weight v → Ends Q (f xs))
      → Ends Q (value_of (as_array v) >>= f)
  then_array Q v f = Ends-bind (λ xs. items_weight xs < weight v) Q _ f (array-Ends v)

  pub then_get :
      (Q : B → Type 0) (key : Bytes) (fs : Fields D) (f : Value D → Outcome ⊥ B)
      → ((v : Value D) → weight v ≤ fields_weight fs → Ends Q (f v))
      → Ends Q (value_of (get key fs) >>= f)
  unfolding get
  then_get Q key fs f =
      Ends-bind (λ v. weight v ≤ fields_weight fs) Q _ f
        (value-Ends key (fields_weight fs) (find key fs) (find-Lighter key fs))

pub bind_assoc :
    {A B C : Type 0} (m : Outcome ⊥ A) (f : A → Outcome ⊥ B) (g : B → Outcome ⊥ C)
    → (m >>= f >>= g) ≡ (m >>= (λ a. f a >>= g))
bind_assoc (ok a) f g = refl
bind_assoc (unexpected e) f g = refl
bind_assoc terminate f g = refl
bind_assoc out_of_fuel f g = refl

module _ {D : Type 0} where
  pub text_member-Stops : (key : Bytes) (fs : Fields D) → Stops (text_member key fs)
  text_member-Stops key fs = then_get Anything key fs _ (λ v h. text-Stops v)

  pub boolean_member-Stops : (key : Bytes) (fs : Fields D) → Stops (boolean_member key fs)
  boolean_member-Stops key fs = then_get Anything key fs _ (λ v h. boolean-Stops v)

  pub documentation-Stops : (fs : Fields D) → Stops (extract_documentation fs)
  unfolding extract_documentation
  documentation-Stops fs =
      Ends-if (λ _. Unit) (contains (codes "documentation") fs) _ _
        (λ e. text_member-Stops (codes "documentation") fs) (λ e. tt)

  pub optional-Stops : (fs : Fields D) → Stops (extract_optional fs)
  unfolding extract_optional
  optional-Stops fs =
      Ends-if (λ _. Unit) (contains (codes "optional") fs) _ _
        (λ e. boolean_member-Stops (codes "optional") fs) (λ e. tt)

module _ {D B : Type 0} where
  pub then_object_member :
      (Q : B → Type 0) (key : Bytes) (fs : Fields D) (f : Fields D → Outcome ⊥ B)
      → ((gs : Fields D) → fields_weight gs < fields_weight fs → Ends Q (f gs))
      → Ends Q (object_member key fs >>= f)
  then_object_member Q key fs f h =
      rw (bind_assoc (value_of (get key fs)) (λ v. value_of (as_object v)) f)
        (then_get Q key fs _ (λ v l. then_object Q v f (λ gs m. h gs (omega arith))))

  pub then_array_member :
      (Q : B → Type 0) (key : Bytes) (fs : Fields D) (f : Items D → Outcome ⊥ B)
      → ((xs : Items D) → items_weight xs < fields_weight fs → Ends Q (f xs))
      → Ends Q (array_member key fs >>= f)
  then_array_member Q key fs f h =
      rw (bind_assoc (value_of (get key fs)) (λ v. value_of (as_array v)) f)
        (then_get Q key fs _ (λ v l. then_array Q v f (λ gs m. h gs (omega arith))))
