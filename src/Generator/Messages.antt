-- ===== src/Generator/Messages.antt =====
-- `generateMessages` of `CppGenerator`: the text of messages.h between its first and its last lines.
-- The messages come in the order of their maps.
use lsp_framework_noec.Base.{
  Bool, true, false, ◌||◌, not, List, [], ◌∷◌, ◌++◌, Option, none, some, Bytes, codes, length,
  if◌then◌else◌, ◌==◌, ok, ◌>>=◌,
}
use lsp_framework_noec.MetaModel.Messages.{
  Direction, client_to_server, server_to_client, both, MetaMessage,
}
use lsp_framework_noec.Generator.Text.{Call, upper_case_identifier, documentation_comment}

-- A direction that was not set is none of the enumerators here.
abbrev pub message_direction : Option Direction → Bytes
message_direction (some client_to_server) = codes "ClientToServer"
message_direction (some server_to_client) = codes "ServerToClient"
message_direction (some both) = codes "Bidirectional"
message_direction none = []

-- `using <name> = <type>;`, where there is a type.
abbrev pub using_line : Bytes → Bytes → Call Bytes
using_line name [] = ok []
using_line name (c ∷ type_name) = do
  id ← upper_case_identifier (c ∷ type_name)
  ok (codes "\tusing " ++ (name ++ (codes " = " ++ (id ++ codes ";\n"))))

abbrev pub is_empty : Bytes → Bool
is_empty text = length text == 0

-- The line between the constants and the types. A message that has the type of error data only gets
-- none.
abbrev pub types_gap : MetaMessage → Bytes
types_gap message =
    if not (is_empty message.registration_options_type_name)
      || not (is_empty message.partial_result_type_name)
      || not (is_empty message.params_type_name)
      || not (is_empty message.result_type_name)
    then codes "\n"
    else []

abbrev pub constants : Bytes → Bytes → MetaMessage → Bool → Bytes
constants cpp_name method message is_notification =
    codes "struct "
    ++ (cpp_name
        ++ (codes "{\n"
            ++ (codes "\tstatic constexpr auto Method    = std::string_view(\""
                ++ (method
                    ++ (codes "\");\n"
                        ++ (codes "\tstatic constexpr auto Direction = MessageDirection::"
                            ++ (message_direction message.direction
                                ++ (codes ";\n"
                                    ++ (codes "\tstatic constexpr auto Type      = Message::"
                                        ++ ((if is_notification
                                              then codes "Notification"
                                              else codes "Request")
                                            ++ codes ";\n"))))))))))

unfoldable pub generate_message : Bytes → MetaMessage → Bool → Call Bytes
generate_message method message is_notification = do
  cpp_name ← upper_case_identifier method
  comment ← documentation_comment method message.documentation 0
  registration_options ←
      using_line (codes "RegistrationOptions") message.registration_options_type_name
  partial_result ← using_line (codes "PartialResult") message.partial_result_type_name
  error_data ← using_line (codes "ErrorData") message.error_data_type_name
  params ← using_line (codes "Params") message.params_type_name
  result ← using_line (codes "Result") message.result_type_name
  ok (
      comment
      ++ (constants cpp_name method message is_notification
          ++ (types_gap message
              ++ (registration_options
                  ++ (partial_result ++ (error_data ++ (params ++ (result ++ codes "};\n\n"))))))))

-- The loop over the messages of a kind.
unfoldable pub generate_each : List (Bytes × MetaMessage) → Bool → Call Bytes
generate_each [] is_notification = ok []
generate_each ((method, message) ∷ messages) is_notification = do
  text ← generate_message method message is_notification
  rest ← generate_each messages is_notification
  ok (text ++ rest)

unfoldable pub generate_messages :
    List (Bytes × MetaMessage) → List (Bytes × MetaMessage) → Call Bytes
generate_messages requests notifications = do
  first ← generate_each requests false
  second ← generate_each notifications true
  ok (
      codes "/*\n * Request messages\n */\nnamespace requests{\n\n"
      ++ (first
          ++ (codes
                "} // namespace requests\n\n/*\n * Notification messages\n */\nnamespace notifications{\n\n"
              ++ (second ++ codes "} // namespace notifications\n"))))
