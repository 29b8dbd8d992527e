-- ===== src/Json/Value.antt =====
-- `json::Value` and `json::Object` of lsp/json/json.h and lsp/json/json.cpp. An object is a hash
-- table there, here the list of its entries in the order in which an iteration meets them, with a
-- new key at the end. A `Decimal` is a value of a type `D` that Json/Floats describes.
use lsp_framework_noec.Base.{ℕ, suc, Bool, true, false, ◌||◌, Bytes, ℤ}

mutual
  pub data Value (D : Type 0) : Type 0 where
    null : Value D
    boolean : Bool → Value D
    integer : ℤ → Value D
    decimal : D → Value D
    string : Bytes → Value D
    array : Items D → Value D
    object : Fields D → Value D

  -- `json::Array`, a `std::vector<Value>`.
  pub data Items (D : Type 0) : Type 0 where
    nil : Items D
    cons : Value D → Items D → Items D

  -- The entries of a `json::Object`.
  pub data Fields (D : Type 0) : Type 0 where
    end : Fields D
    field : Bytes → Value D → Fields D → Fields D

module _ {D : Type 0} where
  abbrev pub is_null : Value D → Bool
  is_null null = true
  is_null _ = false

  abbrev pub is_integer : Value D → Bool
  is_integer (integer n) = true
  is_integer _ = false

  abbrev pub is_decimal : Value D → Bool
  is_decimal (decimal d) = true
  is_decimal _ = false

  abbrev pub is_number : Value D → Bool
  is_number v = is_integer v || is_decimal v

  abbrev pub is_string : Value D → Bool
  is_string (string s) = true
  is_string _ = false

  abbrev pub is_object : Value D → Bool
  is_object (object fs) = true
  is_object _ = false

  abbrev pub is_array : Value D → Bool
  is_array (array xs) = true
  is_array _ = false

  -- `Array::empty`.
  abbrev pub items_empty : Items D → Bool
  items_empty nil = true
  items_empty _ = false

  -- `Array::push_back`.
  unfoldable pub push_back : Items D → Value D → Items D
  push_back nil v = cons v nil
  push_back (cons x xs) v = cons x (push_back xs v)

  -- A write through the reference to the last element.
  unfoldable pub set_back : Items D → Value D → Items D
  set_back nil v = nil
  set_back (cons x nil) v = cons v nil
  set_back (cons x (cons y ys)) v = cons x (set_back (cons y ys) v)

  abbrev pub items_append : Items D → Items D → Items D
  items_append nil ys = ys
  items_append (cons x xs) ys = cons x (items_append xs ys)

  -- `Array::size`.
  abbrev pub items_size : Items D → ℕ
  items_size nil = 0
  items_size (cons x xs) = suc (items_size xs)
