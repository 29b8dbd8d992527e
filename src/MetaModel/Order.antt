-- ===== src/MetaModel/Order.antt =====
-- The order of the properties of a structure.
use lsp_framework_noec.Base.{◌≡◌, refl, ap, ◌∙◌, true, false, Bytes}
use lsp_framework_noec.MetaModel.Types.{
  MetaType, Properties, no_properties, property, properties_append, insert_property, stable_sort,
}

-- The required properties, and the optional ones.
abbrev pub required : Properties → Properties
required no_properties = no_properties
required (property n t false d ps) = property n t false d (required ps)
required (property n t true d ps) = required ps

abbrev pub optional : Properties → Properties
optional no_properties = no_properties
optional (property n t false d ps) = optional ps
optional (property n t true d ps) = property n t true d (optional ps)

insert-required :
    (n : Bytes) (t : MetaType) (d : Bytes) (ps : Properties)
    → insert_property n t false d ps ≡ property n t false d ps
unfolding insert_property
insert-required n t d no_properties = refl
insert-required n t d (property m u true e ps) = refl
insert-required n t d (property m u false e ps) = refl

insert-optional_front :
    (n : Bytes) (t : MetaType) (d : Bytes) (ps : Properties)
    → insert_property n t true d (optional ps) ≡ property n t true d (optional ps)
unfolding insert_property
insert-optional_front n t d no_properties = refl
insert-optional_front n t d (property m u true e ps) = refl
insert-optional_front n t d (property m u false e ps) = insert-optional_front n t d ps

insert-optional :
    (n : Bytes) (t : MetaType) (d : Bytes) (ps qs : Properties)
    → insert_property n t true d (properties_append (required ps) (optional qs))
      ≡ properties_append (required ps) (property n t true d (optional qs))
unfolding insert_property
insert-optional n t d no_properties qs = insert-optional_front n t d qs
insert-optional n t d (property m u false e ps) qs =
    ap (property m u false e) (insert-optional n t d ps qs)
insert-optional n t d (property m u true e ps) qs = insert-optional n t d ps qs

-- The sorted properties are the required ones and then the optional ones, each in the order of the
-- JSON.
pub stable_sort-required :
    (ps : Properties) → stable_sort ps ≡ properties_append (required ps) (optional ps)
unfolding stable_sort
stable_sort-required no_properties = refl
stable_sort-required (property n t false d ps) =
    ap (insert_property n t false d) (stable_sort-required ps)
    ∙ insert-required n t d (properties_append (required ps) (optional ps))
stable_sort-required (property n t true d ps) =
    ap (insert_property n t true d) (stable_sort-required ps) ∙ insert-optional n t d ps ps
