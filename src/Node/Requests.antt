-- ===== src/Node/Requests.antt =====
-- src/node.cpp: the requests that a node sends to the broker in `register_node`,
-- `register_message_type`, `register_topic`, `register_publisher` and `register_subscriber`, and how
-- it reads the responses.
pub mod Answers
pub mod Served
pub mod Replies
mod Tests
use cpp_rt_pubsub.Prelude.{
  ℕ, ◌<◌, ◌^◌, Bool, true, false, String, List, [], ◌∷◌, Option, none, some, Result, ok, ◌>>=◌,
  or_fail, exception, ℤ, IsI8, if◌then◌else◌, not, ◌||◌,
}
use cpp_rt_pubsub.Json.{Json}

-- What a node asks for.
pub data Request : Type 0 where
  register_node : String → Request
  register_message_type : String → ℕ → Request
  register_topic : String → ℕ → ℤ → Request
  add_publisher add_subscriber : ℕ → ℕ → ℕ → Request

-- The IDs, the size and the priority of a request are values of their C++ types.
abbrev pub Fits : Request → Type 0
Fits (register_node name) = Unit
Fits (register_message_type name size) = size < 2 ^ 32
Fits (register_topic name type priority) = (type < 2 ^ 32) × IsI8 priority
Fits (add_publisher node topic type) = (node < 2 ^ 32) × (topic < 2 ^ 32) × (type < 2 ^ 32)
Fits (add_subscriber node topic type) = (node < 2 ^ 32) × (topic < 2 ^ 32) × (type < 2 ^ 32)

module _ (json : Json) where
  open json use {Value, member, get_bool, get_u32, get_i8, of_text, of_u32, of_i8, object, empty}

  -- The JSON literals, with the parameters filled in.
  abbrev pub action : String → String → List (String × Value) → ℕ → Value
  action scope name params rpc_id = object (
      ("scope", of_text scope)
      ∷ (scope, object (("action", of_text name) ∷ ("params", object params) ∷ []))
      ∷ ("rpc_id", of_u32 rpc_id)
      ∷ [])

  abbrev pub ids : ℕ → ℕ → ℕ → List (String × Value)
  ids node topic type =
      ("node_id", of_u32 node) ∷ ("topic_id", of_u32 topic) ∷ ("message_type_id", of_u32 type) ∷ []

  abbrev pub request_json : ℕ → Request → Value
  request_json rpc_id (register_node name) =
      action "node" "register" (("name", of_text name) ∷ []) rpc_id
  request_json rpc_id (register_message_type name size) =
      action "message" "register" (("name", of_text name) ∷ ("size", of_u32 size) ∷ []) rpc_id
  request_json rpc_id (register_topic name type priority) =
      action "topic" "register"
        (("name", of_text name)
          ∷ ("message_type_id", of_u32 type)
          ∷ ("priority", of_i8 priority)
          ∷ [])
        rpc_id
  request_json rpc_id (add_publisher node topic type) =
      action "topic" "add_publisher" (ids node topic type) rpc_id
  request_json rpc_id (add_subscriber node topic type) =
      action "topic" "add_subscriber" (ids node topic type) rpc_id

  -- `result.empty() || !result["success"]`, negated.
  unfoldable pub is_success : Value → Result Bool
  is_success result = do
    let success : Result Bool = do
      v ← or_fail (member result "success") exception
      or_fail (get_bool v) exception
    if empty result then ok false else success

  unfoldable pub read_u32_field : String → Value → Result ℕ
  read_u32_field key result = do
    v ← or_fail (member result key) exception
    or_fail (get_u32 v) exception

  -- What `register_node` and `register_message_type` take from a response: `none` is `false`.
  unfoldable pub read_id : String → Value → Result (Option ℕ)
  read_id key result = do
    success ← is_success result
    let id = read_u32_field key result >>= λ n. ok (some n)
    if success then id else ok none

  -- The same of `register_topic`, with the actual priority.
  unfoldable pub read_topic : Value → Result (Option (ℕ × ℤ))
  read_topic result = do
    success ← is_success result
    let topic : Result (Option (ℕ × ℤ)) = do
      id ← read_u32_field "topic_id" result
      v ← or_fail (member result "topic_priority") exception
      priority ← or_fail (get_i8 v) exception
      ok (some (id, priority))
    if success then topic else ok none
