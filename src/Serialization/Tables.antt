-- ===== src/Serialization/Tables.antt =====
-- `StrMap` in lsp/serialization.h.
use lsp_framework_noec.Base.{
  if◌then◌else◌, ◌≡◌, ◌≢◌, refl, sym, ap, ◌>>=◌, Option, none, some, List, [], ◌∷◌, ◌++◌,
  append_assoc, append-nil, All, Bytes, bytes_eq_iff, bytes_key, Key, lookup, insert, Outcome, ok,
  arith,
}
use lsp_framework_noec.Json.Value.{Value, Fields, end, field, is_object}
use lsp_framework_noec.Json.Object.{assign}
use lsp_framework_noec.Jsonrpc.{as_object}
use lsp_framework_noec.Uri.Record
use lsp_framework_noec.Uri.Record.{Uri, is_valid}
use lsp_framework_noec.Uri.Parse
use lsp_framework_noec.FileUri.{from_uri}
use lsp_framework_noec.Serialization.Serial.{Serial, ComesBack, value_of}

-- The text of a key, `mapKey`, and the key of a text where it is a valid one.
pub record Texts (K : Type 0) : Type 0 where
  pub to_text : K → Bytes
  pub from_text : Bytes → Option K

abbrev pub string_texts : Texts Bytes
string_texts = record { to_text = λ s. s; from_text = some }

abbrev pub valid_uri : Uri → Option Uri
valid_uri u = if is_valid u then some u else none

abbrev pub uri_texts : Texts Uri
uri_texts = record { to_text = Record.to_string; from_text = λ t. valid_uri (Parse.parse t) }

abbrev pub file_uri_texts : Texts Uri
file_uri_texts = record {
  to_text = Record.to_string;
  from_text = λ t. valid_uri (from_uri (Parse.parse t));
}

module _ {D K T : Type 0} ⦃k : Key K⦄ (texts : Texts K) (s : Serial D T) where
  unfoldable pub table_fields : List (K × T) → Fields D → Fields D
  table_fields [] fs = fs
  table_fields ((a, x) ∷ m) fs = table_fields m (assign (texts.to_text a) (s.to_json x) fs)

  -- `value[key]`, which adds a default value under a missing key.
  unfoldable pub element_at : K → List (K × T) → T
  element_at a m = elim (lookup a m) [ none ↦ s.default | some x ↦ x ]

  unfoldable pub read_field : Option K → Value D → List (K × T) → Outcome ⊥ (List (K × T))
  read_field none v m = ok m
  read_field (some a) v m = do x ← s.from_json v (element_at a m); ok (insert a x m)

  unfoldable pub read_fields : Fields D → List (K × T) → Outcome ⊥ (List (K × T))
  read_fields end m = ok m
  read_fields (field t v fs) m = do n ← read_field (texts.from_text t) v m; read_fields fs n

  unfoldable pub table_from_json : Value D → List (K × T) → Outcome ⊥ (List (K × T))
  table_from_json json old = do fs ← value_of (as_object json); read_fields fs old

  unfoldable pub serial_table : Serial D (List (K × T))
  serial_table = record {
    default = [];
    to_json = λ m. Value.object (table_fields m end);
    from_json = table_from_json;
    can_deserialize = is_object;
  }

  -- No key has the text of one before it, `p` being the entries before.
  unfoldable pub Apart : List (K × T) → List (K × T) → Type 0
  Apart p [] = Unit
  Apart p ((a, x) ∷ m) =
      All (λ e. texts.to_text e.0 ≢ texts.to_text a) p × Apart (p ++ ((a, x) ∷ [])) m

  -- The keys and the values come back one by one.
  abbrev pub ComeBack : List (K × T) → Type 0
  ComeBack = All (λ e. (texts.from_text (texts.to_text e.0) ≡ some e.0) × ComesBack s e.1)

  abbrev fields_of : List (K × T) → Fields D
  fields_of [] = end
  fields_of ((a, x) ∷ m) = field (texts.to_text a) (s.to_json x) (fields_of m)

  assign-fields_of :
      (a : K) (x : T) (p : List (K × T))
      → All (λ e. texts.to_text e.0 ≢ texts.to_text a) p
      → assign (texts.to_text a) (s.to_json x) (fields_of p) ≡ fields_of (p ++ ((a, x) ∷ []))
  unfolding assign
  assign-fields_of a x [] h = refl
  assign-fields_of a x ((b, y) ∷ p) (hb, h) =
      ground (arith, bytes_eq_iff (texts.to_text b) (texts.to_text a), assign-fields_of a x p h)

  table_fields-fields_of :
      (p m : List (K × T)) → Apart p m → table_fields m (fields_of p) ≡ fields_of (p ++ m)
  unfolding table_fields Apart
  table_fields-fields_of p [] h = ap fields_of (sym (append-nil p))
  table_fields-fields_of p ((a, x) ∷ m) (ha, h) =
      rw
        (
          assign-fields_of a x p ha,
          table_fields-fields_of (p ++ ((a, x) ∷ [])) m h,
          append_assoc p ((a, x) ∷ []) m,
        )
        refl

  insert-new :
      (a : K) (x : T) (p : List (K × T))
      → All (λ e. texts.to_text e.0 ≢ texts.to_text a) p
      → insert a x p ≡ p ++ ((a, x) ∷ [])
  insert-new a x [] h = refl
  insert-new a x ((b, y) ∷ p) (hb, h) =
      ground (arith, k.key_eq_iff b a, λ (e : b ≡ a). hb (ap texts.to_text e), insert-new a x p h)

  element_at-new :
      (a : K) (p : List (K × T))
      → All (λ e. texts.to_text e.0 ≢ texts.to_text a) p
      → element_at a p ≡ s.default
  unfolding element_at
  element_at-new a [] h = refl
  element_at-new a ((b, y) ∷ p) (hb, h) =
      ground (arith, k.key_eq_iff b a, λ (e : b ≡ a). hb (ap texts.to_text e), element_at-new a p h)

  read_fields-fields_of :
      (p m : List (K × T)) → Apart p m → ComeBack m → read_fields (fields_of m) p ≡ ok (p ++ m)
  unfolding read_fields read_field Apart
  read_fields-fields_of p [] h c = ap ok (sym (append-nil p))
  read_fields-fields_of p ((a, x) ∷ m) (ha, h) ((ca, cx), c) =
      rw
        (
          ca,
          element_at-new a p ha,
          cx.read_back,
          insert-new a x p ha,
          read_fields-fields_of (p ++ ((a, x) ∷ [])) m h c,
          append_assoc p ((a, x) ∷ []) m,
        )
        refl

  -- A map whose keys have different texts comes back from its JSON when each key comes back from
  -- its text and each value from its JSON.
  pub serial_table-ComesBack :
      (m : List (K × T)) → Apart [] m → ComeBack m → ComesBack serial_table m
  unfolding serial_table table_from_json
  serial_table-ComesBack m h c = record {
    recognised = refl;
    read_back = rw (table_fields-fields_of [] m h) (read_fields-fields_of [] m h c);
  }
