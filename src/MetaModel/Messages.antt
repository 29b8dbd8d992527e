-- ===== src/MetaModel/Messages.antt =====
-- The messages of the meta model: `Message`, `extractRequests` and `extractNotifications` of
-- lspgen/lspgen.cpp. A `std::map` is a list of its entries in the order in which they were added.
use lsp_framework_noec.Base.{
  List, [], ◌∷◌, ◌++◌, Option, none, some, Bytes, codes, bytes_eq, bytes_key, lookup, if◌then◌else◌,
  Outcome, ok, ◌>>=◌,
}
use lsp_framework_noec.Json.Value.{Items, nil, cons, Fields}
use lsp_framework_noec.Json.Object.{contains}
use lsp_framework_noec.Json.Floats.{Floats}
use lsp_framework_noec.Jsonrpc.{as_object}
use lsp_framework_noec.Serialization.Serial.{value_of}
use lsp_framework_noec.MetaModel.Extract.{
  text_member, object_member, array_member, extract_documentation,
}
use lsp_framework_noec.MetaModel.Model.{Model, capitalize_string}
use lsp_framework_noec.MetaModel.Reading.{extract_types}

pub data Direction : Type 0 where
  client_to_server server_to_client both : Direction

-- The direction is not set in a message whose JSON names none.
pub record MetaMessage : Type 0 where
  pub documentation : Bytes
  pub direction : Option Direction
  pub params_type_name : Bytes
  pub result_type_name : Bytes
  pub partial_result_type_name : Bytes
  pub error_data_type_name : Bytes
  pub registration_options_type_name : Bytes

abbrev pub direction_of : Bytes → Option Direction
direction_of dir =
    if bytes_eq dir (codes "clientToServer")
    then some client_to_server
    else if bytes_eq dir (codes "serverToClient")
    then some server_to_client
    else if bytes_eq dir (codes "both")
    then some both
    else none

module _ {D : Type 0} where
  -- `memberTypeName`: the name of a reference, or the one that `addTypeAlias` makes.
  unfoldable pub member_type_name : Fields D → Bytes → Outcome ⊥ Bytes
  member_type_name fs key =
      let named = (do
        method ← text_member (codes "method") fs
        ok (method ++ capitalize_string key)) in
      let member = (do
        type_json ← object_member key fs
        kind ← text_member (codes "kind") type_json
        if bytes_eq kind (codes "reference")
            then text_member (codes "name") type_json
            else named) in
      if contains key fs then member else ok []

  abbrev pub with_direction : Fields D → Bytes → Option Direction → Outcome ⊥ MetaMessage
  with_direction fs documentation none = ok (record {
    documentation = documentation;
    direction = none;
    params_type_name = [];
    result_type_name = [];
    partial_result_type_name = [];
    error_data_type_name = [];
    registration_options_type_name = [];
  })
  with_direction fs documentation (some direction) = do
    params ← member_type_name fs (codes "params")
    result ← member_type_name fs (codes "result")
    partial_result ← member_type_name fs (codes "partialResult")
    error_data ← member_type_name fs (codes "errorData")
    registration_options ← member_type_name fs (codes "registrationOptions")
    ok (record {
      documentation = documentation;
      direction = some direction;
      params_type_name = params;
      result_type_name = result;
      partial_result_type_name = partial_result;
      error_data_type_name = error_data;
      registration_options_type_name = registration_options;
    })

  -- `Message::extract`, whose error for another direction its callers drop.
  unfoldable pub extract_message : Fields D → Outcome ⊥ MetaMessage
  extract_message fs = do
    documentation ← extract_documentation fs
    dir ← text_member (codes "messageDirection") fs
    with_direction fs documentation (direction_of dir)

  -- The loops over requests and over notifications. They stop at a second message of a method, and no
  -- caller takes notice of that error.
  unfoldable pub add_messages :
      Items D → List (Bytes × MetaMessage) → Outcome ⊥ (List (Bytes × MetaMessage))
  add_messages nil table = ok table
  add_messages (cons v vs) table = do
    fs ← value_of (as_object v)
    method ← text_member (codes "method") fs
    let add = (do message ← extract_message fs; add_messages vs (table ++ (method, message) ∷ []))
    elim (lookup method table) [ some other ↦ ok table | none ↦ add ]

  unfoldable pub extract_messages : Bytes → Fields D → Outcome ⊥ (List (Bytes × MetaMessage))
  extract_messages key json = do items ← array_member key json; add_messages items []

-- `MetaModel::extract`: the types, the requests and the notifications.
unfoldable pub extract :
    (F : Floats)
    → Fields F.Double
    → Outcome ⊥ (Model F.Double × List (Bytes × MetaMessage) × List (Bytes × MetaMessage))
extract F json = do
  model ← extract_types F json
  requests ← extract_messages (codes "requests") json
  notifications ← extract_messages (codes "notifications") json
  ok (model, requests, notifications)
