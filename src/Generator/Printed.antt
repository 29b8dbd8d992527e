-- ===== src/Generator/Printed.antt =====
-- The printers of messages and enumerations come to an end.
use lsp_framework_noec.Base.{ℕ, refl, Bool, false, true, List, [], ◌∷◌, ◌++◌, Bytes, codes, ◌>>=◌}
use lsp_framework_noec.Json.Floats.{Floats}
use lsp_framework_noec.MetaModel.Types.{BaseKind}
use lsp_framework_noec.MetaModel.Model.{EnumValue, EnumerationType}
use lsp_framework_noec.MetaModel.Messages.{MetaMessage}
use lsp_framework_noec.Generator.Text.{
  Call, upper_case_identifier, documentation_comment, comment_of, comment_lines,
}
use lsp_framework_noec.Generator.Stops.{Returns, split_string_view-Returns}
use lsp_framework_noec.Generator.Comment.{escaped_line-Safe}
use lsp_framework_noec.Generator.Split.{upper_case_identifier-All}
use lsp_framework_noec.Generator.Messages.{
  using_line, generate_message, generate_each, generate_messages,
}
use lsp_framework_noec.Generator.Enumerations.{
  enumerator, more_enumerators, enumerators, generate_base_enumeration,
}

Returns-bind :
    {A B : Type 0} (m : Call A) (f : A → Call B)
    → Returns m
    → ((a : A) → Returns (f a))
    → Returns (m >>= f)
Returns-bind m f (a, same) h = rw same (h a)

upper_case_identifier-Returns : (text : Bytes) → Returns (upper_case_identifier text)
upper_case_identifier-Returns text =
    let (id, same, _) = upper_case_identifier-All text in (id, same)

comment_lines-Returns : (indent : Bytes) (lines : List Bytes) → Returns (comment_lines indent lines)
unfolding comment_lines
comment_lines-Returns indent [] = ([], refl)
comment_lines-Returns indent (line ∷ lines) =
    let (text, same, _) = escaped_line-Safe line in
    let (rest, others) = comment_lines-Returns indent lines in
    (indent ++ (codes " * " ++ (text ++ (codes "\n" ++ rest))), rw (same, others) refl)

comment_of-Returns :
    (indent title : Bytes) (lines : List Bytes) → Returns (comment_of indent title lines)
comment_of-Returns indent [] [] = ([], refl)
comment_of-Returns indent (c ∷ title) [] = (_, refl)
comment_of-Returns indent title (line ∷ lines) =
    Returns-bind (comment_lines indent (line ∷ lines)) _
      (comment_lines-Returns indent (line ∷ lines)) (λ text. (_, refl))

documentation_comment-Returns :
    (title documentation : Bytes) (n : ℕ) → Returns (documentation_comment title documentation n)
unfolding documentation_comment
documentation_comment-Returns title documentation n =
    Returns-bind _ _ (split_string_view-Returns documentation b'\n' [] false)
      (λ lines. comment_of-Returns _ title lines)

using_line-Returns : (name type_name : Bytes) → Returns (using_line name type_name)
using_line-Returns name [] = ([], refl)
using_line-Returns name (c ∷ type_name) =
    Returns-bind _ _ (upper_case_identifier-Returns (c ∷ type_name)) (λ id. (_, refl))

generate_message-Returns :
    (method : Bytes) (message : MetaMessage) (b : Bool)
    → Returns (generate_message method message b)
unfolding generate_message
generate_message-Returns method message b =
    Returns-bind _ _ (upper_case_identifier-Returns method) (λ id.
      Returns-bind _ _ (documentation_comment-Returns method message.documentation 0) (λ comment.
        Returns-bind _ _
          (using_line-Returns (codes "RegistrationOptions") message.registration_options_type_name)
          (λ u1.
            Returns-bind _ _
              (using_line-Returns (codes "PartialResult") message.partial_result_type_name)
              (λ u2.
                Returns-bind _ _
                  (using_line-Returns (codes "ErrorData") message.error_data_type_name)
                  (λ u3.
                    Returns-bind _ _ (using_line-Returns (codes "Params") message.params_type_name)
                      (λ u4.
                        Returns-bind _ _
                          (using_line-Returns (codes "Result") message.result_type_name)
                          (λ u5. (_, refl))))))))

generate_each-Returns :
    (messages : List (Bytes × MetaMessage)) (b : Bool) → Returns (generate_each messages b)
unfolding generate_each
generate_each-Returns [] b = ([], refl)
generate_each-Returns ((method, message) ∷ messages) b =
    Returns-bind _ _ (generate_message-Returns method message b)
      (λ text. Returns-bind _ _ (generate_each-Returns messages b) (λ rest. (_, refl)))

-- `generateMessages` comes to an end, whatever the messages.
pub generate_messages-Returns :
    (requests notifications : List (Bytes × MetaMessage))
    → Returns (generate_messages requests notifications)
unfolding generate_messages
generate_messages-Returns requests notifications =
    Returns-bind _ _ (generate_each-Returns requests false)
      (λ first. Returns-bind _ _ (generate_each-Returns notifications true) (λ second. (_, refl)))

module _ (F : Floats) where
  open F use {Double}

  enumerator-Returns : (value : EnumValue Double) → Returns (enumerator F value)
  enumerator-Returns value =
      Returns-bind _ _ (documentation_comment-Returns [] value.documentation 1)
        (λ comment. (_, refl))

  more_enumerators-Returns :
      (values : List (EnumValue Double)) → Returns (more_enumerators F values)
  unfolding more_enumerators
  more_enumerators-Returns [] = (_, refl)
  more_enumerators-Returns (value ∷ values) =
      Returns-bind _ _ (enumerator-Returns value)
        (λ one. Returns-bind _ _ (more_enumerators-Returns values) (λ more. (_, refl)))

  enumerators-Returns : (values : List (EnumValue Double)) → Returns (enumerators F values)
  unfolding enumerators
  enumerators-Returns [] = (_, refl)
  enumerators-Returns (value ∷ values) =
      Returns-bind _ _ (enumerator-Returns value)
        (λ one. Returns-bind _ _ (more_enumerators-Returns values) (λ more. (_, refl)))

  -- An enumeration of a base type is printed, whatever its values.
  pub generate_base_enumeration-Returns :
      (enumeration : EnumerationType Double) (kind : BaseKind)
      → Returns (generate_base_enumeration F enumeration kind)
  unfolding generate_base_enumeration
  generate_base_enumeration-Returns enumeration kind =
      Returns-bind _ _ (upper_case_identifier-Returns enumeration.name) (λ name.
        Returns-bind _ _ (documentation_comment-Returns name enumeration.documentation 0)
          (λ comment.
            Returns-bind _ _ (enumerators-Returns enumeration.values) (λ values. (_, refl))))
