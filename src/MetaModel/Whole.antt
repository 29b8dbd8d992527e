-- ===== src/MetaModel/Whole.antt =====
-- The extraction of the types of a meta model.
use lsp_framework_noec.Base.{
  ◌≡◌, refl, sym, List, [], ◌∷◌, some, Bytes, codes, bytes_eq, bytes_eq_iff, bytes_key, lookup,
  Outcome, arith, inl, inr, Bool-cases, All,
}
use lsp_framework_noec.Json.Value.{Items, nil, cons, Fields}
use lsp_framework_noec.Json.Object.{contains}
use lsp_framework_noec.Json.Floats.{Floats}
use lsp_framework_noec.Json.Parser.Ends.{Ends, Ends-bind, Ends-if, Ends-weaken}
use lsp_framework_noec.MetaModel.Extract.{
  extract_structure_properties, create_from_json, items_weight,
}
use lsp_framework_noec.MetaModel.Stops.{
  Stops, Anything, Stops-bind, text_member-Stops, boolean_member-Stops, documentation-Stops,
  then_object, then_get, then_object_member, then_array_member,
}
use lsp_framework_noec.MetaModel.Total.{create_types-Stops, extract_properties-Stops, create-Stops}
use lsp_framework_noec.MetaModel.Model.{TypeIndex, Model, name_at, type_for_name, for_each}
use lsp_framework_noec.MetaModel.Reading.{
  request_members, notification_members, extract_enum_values, extract_enumeration, extract_parents,
  extract_structure, extract_type_alias, member_alias, add_member_alias, add_aliases,
  add_request_aliases, add_notification_aliases, extract_enumerations, extract_structures,
  extract_type_aliases, extract_meta_data, extract_types,
}
use lsp_framework_noec.MetaModel.Names.{
  IsNamed, keys, add_enumeration-IsNamed, add_structure-IsNamed, add_type_alias-IsNamed,
}

lookup-All :
    (P : Bytes × TypeIndex → Type 0) (k : Bytes) (i : TypeIndex) (m : List (Bytes × TypeIndex))
    → All P m
    → lookup k m ≡ some i
    → P (k, i)
lookup-All P k i [] h e = absurd (cc e)
lookup-All P k i ((c, j) ∷ m) (h, hs) e = elim (Bool-cases (bytes_eq c k)) [
  | inl y ↦
      let same : c ≡ k = (bytes_eq_iff c k).0 y in
      let there : j ≡ i = ground (arith, y, e) in rw (sym same, sym there) h
  | inr n ↦ lookup-All P k i m hs (ground (arith, n, e))
]

-- The name of a type leads to a type of that name, and the names are listed in the order of the map.
abbrev pub LeadsToNames : {D : Type 0} → Model D → Type 0
LeadsToNames m =
    ((name : Bytes) (index : TypeIndex)
      → type_for_name name m ≡ some index
      → name_at index m ≡ some name)
    × (m.type_names ≡ keys m.types_by_name)

module _ (F : Floats) where
  open F use {Double}

  values-Ends : (xs : Items Double) → Stops (extract_enum_values F xs)
  unfolding extract_enum_values
  values-Ends nil = tt
  values-Ends (cons v vs) = then_object Anything v _ (λ fs l.
      Stops-bind _ _ (text_member-Stops (codes "name") fs) (λ name.
        then_get Anything (codes "value") fs _ (λ value m.
          Stops-bind _ _ (documentation-Stops fs)
            (λ d. Stops-bind _ _ (values-Ends vs) (λ rest. tt)))))

  enumeration-Stops : (fs : Fields Double) → Stops (extract_enumeration F fs)
  unfolding extract_enumeration
  enumeration-Stops fs = Stops-bind _ _ (text_member-Stops (codes "name") fs) (λ name.
      then_object_member Anything (codes "type") fs _ (λ gs l.
        Stops-bind _ _ (create-Stops F gs) (λ t.
          then_array_member Anything (codes "values") fs _ (λ xs m.
            Stops-bind _ _ (values-Ends xs) (λ vs. Stops-bind _ _ (documentation-Stops fs) (λ d.
              Stops-bind _ _
                (Ends-if (λ _. Unit) (contains (codes "supportsCustomValues") fs) _ _
                  (λ e. boolean_member-Stops (codes "supportsCustomValues") fs) (λ e. tt))
                (λ c. tt)))))))

  parents-Ends : (key : Bytes) (fs : Fields Double) → Stops (extract_parents F key fs)
  parents-Ends key fs =
      Ends-if (λ _. Unit) (contains key fs) _ _
        (λ e. then_array_member Anything key fs _ (λ xs l.
          create_types-Stops (create_from_json F) (items_weight xs) xs (λ gs m. create-Stops F gs)
            (omega arith)))
        (λ e. tt)

  structure-Stops : (fs : Fields Double) → Stops (extract_structure F fs)
  unfolding extract_structure extract_structure_properties
  structure-Stops fs = Stops-bind _ _ (text_member-Stops (codes "name") fs) (λ name.
      then_array_member Anything (codes "properties") fs _ (λ xs l.
        Stops-bind _ _
          (Stops-bind _ _
            (extract_properties-Stops (create_from_json F) (items_weight xs) xs
              (λ gs m. create-Stops F gs) (omega arith))
            (λ ps. tt))
          (λ ps. Stops-bind _ _ (parents-Ends (codes "extends") fs) (λ es.
            Stops-bind _ _ (parents-Ends (codes "mixins") fs)
              (λ ms. Stops-bind _ _ (documentation-Stops fs) (λ d. tt))))))

  alias-Stops : (fs : Fields Double) → Stops (extract_type_alias F fs)
  unfolding extract_type_alias
  alias-Stops fs = Stops-bind _ _ (text_member-Stops (codes "name") fs) (λ name.
      then_object_member Anything (codes "type") fs _ (λ gs l.
        Stops-bind _ _ (create-Stops F gs)
          (λ t. Stops-bind _ _ (documentation-Stops fs) (λ d. tt))))

  member_alias-Stops :
      (gs : Fields Double) (key base : Bytes) (m : Model Double)
      → IsNamed m
      → Ends IsNamed (member_alias F gs key base m)
  member_alias-Stops gs key base m h = Ends-bind Anything IsNamed _ _ (create-Stops F gs) (λ t _.
      Ends-bind Anything IsNamed _ _ (documentation-Stops gs) (λ d _. add_type_alias-IsNamed _ m h))

  add_member_alias-Stops :
      (fs : Fields Double) (key base : Bytes) (m : Model Double)
      → IsNamed m
      → Ends IsNamed (add_member_alias F fs key base m)
  unfolding add_member_alias
  add_member_alias-Stops fs key base m h =
      Ends-if IsNamed (contains key fs) _ _
        (λ e. then_object_member IsNamed key fs _ (λ gs l.
          Ends-bind Anything IsNamed _ _ (text_member-Stops (codes "kind") gs) (λ kind _.
            Ends-if IsNamed (bytes_eq kind (codes "reference")) _ _ (λ e. h)
              (λ e. member_alias-Stops gs key base m h))))
        (λ e. h)

  add_aliases-Ends :
      (keys : List Bytes) (fs : Fields Double) (base : Bytes) (m : Model Double)
      → IsNamed m
      → Ends IsNamed (add_aliases F keys fs base m)
  add_aliases-Ends [] fs base m h = h
  add_aliases-Ends (key ∷ keys) fs base m h =
      Ends-bind IsNamed IsNamed _ _ (add_member_alias-Stops fs key base m h)
        (λ n k. add_aliases-Ends keys fs base n k)

  for_each-Stops :
      (add : Fields Double → Model Double → Outcome ⊥ (Model Double))
      → ((fs : Fields Double) (m : Model Double) → IsNamed m → Ends IsNamed (add fs m))
      → (xs : Items Double) (m : Model Double) → IsNamed m
      → Ends IsNamed (for_each add xs m)
  unfolding for_each
  for_each-Stops add keeps nil m h = h
  for_each-Stops add keeps (cons v vs) m h = then_object IsNamed v _ (λ fs l.
      Ends-bind IsNamed IsNamed _ _ (keeps fs m h) (λ n k. for_each-Stops add keeps vs n k))

  enumerations-Ends :
      (json : Fields Double) (m : Model Double)
      → IsNamed m
      → Ends IsNamed (extract_enumerations F json m)
  unfolding extract_enumerations
  enumerations-Ends json m h = then_array_member IsNamed (codes "enumerations") json _ (λ xs l.
      for_each-Stops _
        (λ fs n k.
          Ends-bind Anything IsNamed _ _ (enumeration-Stops fs)
            (λ e _. add_enumeration-IsNamed e n k))
        xs m h)

  structures-Ends :
      (json : Fields Double) (m : Model Double)
      → IsNamed m
      → Ends IsNamed (extract_structures F json m)
  unfolding extract_structures
  structures-Ends json m h = then_array_member IsNamed (codes "structures") json _ (λ xs l.
      for_each-Stops _
        (λ fs n k.
          Ends-bind Anything IsNamed _ _ (structure-Stops fs) (λ s _. add_structure-IsNamed s n k))
        xs m h)

  aliases-Ends :
      (json : Fields Double) (m : Model Double)
      → IsNamed m
      → Ends IsNamed (extract_type_aliases F json m)
  unfolding extract_type_aliases add_request_aliases add_notification_aliases
  aliases-Ends json m h = then_array_member IsNamed (codes "typeAliases") json _ (λ xs l.
      Ends-bind IsNamed IsNamed _ _
        (for_each-Stops _
          (λ fs n k.
            Ends-bind Anything IsNamed _ _ (alias-Stops fs) (λ a _. add_type_alias-IsNamed a n k))
          xs m h)
        (λ m1 h1. then_array_member IsNamed (codes "requests") json _ (λ ys l.
          Ends-bind IsNamed IsNamed _ _
            (for_each-Stops _
              (λ fs n k.
                Ends-bind Anything IsNamed _ _ (text_member-Stops (codes "method") fs)
                  (λ method _. add_aliases-Ends request_members fs method n k))
              ys m1 h1)
            (λ m2 h2. then_array_member IsNamed (codes "notifications") json _ (λ zs l.
              for_each-Stops _
                (λ fs n k.
                  Ends-bind Anything IsNamed _ _ (text_member-Stops (codes "method") fs)
                    (λ method _. add_aliases-Ends notification_members fs method n k))
                zs m2 h2)))))

  meta_data-Stops : (json : Fields Double) → Ends IsNamed (extract_meta_data F json)
  unfolding extract_meta_data
  meta_data-Stops json = then_object_member IsNamed (codes "metaData") json _ (λ gs l.
      Ends-bind Anything IsNamed _ _ (text_member-Stops (codes "version") gs)
        (λ v _. record { named = tt; listed = refl }))

  types-Ends : (json : Fields Double) → Ends IsNamed (extract_types F json)
  unfolding extract_types
  types-Ends json = Ends-bind IsNamed IsNamed _ _ (meta_data-Stops json) (λ m0 h0.
      Ends-bind IsNamed IsNamed _ _ (enumerations-Ends json m0 h0) (λ m1 h1.
        Ends-bind IsNamed IsNamed _ _ (structures-Ends json m1 h1)
          (λ m2 h2. aliases-Ends json m2 h2)))

  -- The extraction of the types comes to an end on every JSON object, and the names of the model that
  -- it gives lead to types of those names, duplicate names included.
  pub extract_types-LeadsToNames : (json : Fields Double) → Ends LeadsToNames (extract_types F json)
  unfolding type_for_name
  extract_types-LeadsToNames json =
      Ends-weaken IsNamed LeadsToNames (extract_types F json) (types-Ends json) (λ m h. (
        λ name index e.
            lookup-All (λ e. name_at e.1 m ≡ some e.0) name index m.types_by_name h.named e,
        h.listed,
      ))
