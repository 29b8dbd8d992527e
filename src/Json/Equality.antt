-- ===== src/Json/Equality.antt =====
-- `operator==` of `json::Value` and of `json::Object`. Doubles are compared by a parameter.
use lsp_framework_noec.Base.{Bool, true, false, ◌&&◌, none, some, bytes_eq, int_eq, ◌==◌}
use lsp_framework_noec.Json.Value.{
  Value, Items, Fields, null, boolean, integer, decimal, string, array, object, nil, cons, end,
  field,
}
use lsp_framework_noec.Json.Object.{find, size}

abbrev pub bool_eq : Bool → Bool → Bool
bool_eq true b = b
bool_eq false true = false
bool_eq false false = true

module _ {D : Type 0} (double_eq : D → D → Bool) where
  unfoldable mutual
    pub value_eq : Value D → Value D → Bool
    value_eq null null = true
    value_eq (boolean a) (boolean b) = bool_eq a b
    value_eq (integer m) (integer n) = int_eq m n
    value_eq (decimal d) (decimal e) = double_eq d e
    value_eq (string s) (string t) = bytes_eq s t
    value_eq (array vs) (array ws) = items_eq vs ws
    value_eq (object fs) (object gs) = size fs == size gs && fields_within fs gs
    value_eq _ _ = false

    pub items_eq : Items D → Items D → Bool
    items_eq nil nil = true
    items_eq (cons v vs) (cons w ws) = value_eq v w && items_eq vs ws
    items_eq _ _ = false

    -- Each field of the first object stands in the second one with an equal value.
    pub fields_within : Fields D → Fields D → Bool
    fields_within end gs = true
    fields_within (field k v fs) gs =
        elim (find k gs) [ none ↦ false | some w ↦ value_eq v w ] && fields_within fs gs
