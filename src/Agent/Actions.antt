-- ===== src/Agent/Actions.antt =====
-- The actions of internal/agent/actions.go: their definition, their handlers and the registry.
pub mod Running
pub mod Registry
use motekarindo_panel.Base.{
  ℕ, ◌*◌, Bool, true, false, ◌&&◌, ◌||◌, not, Option, none, some, List, [], ◌∷◌, ◌++◌, all, any,
  map, length, ltb, if◌then◌else◌,
}
use motekarindo_panel.Base.Sort.{text_lt, sort_by}
use motekarindo_panel.Base.Text.{Text, txt, same, is_empty, starts_with, byte_len, trim_space}
use motekarindo_panel.Base.Error.{
  Error, sentinel, note, unknown_action, invalid_action, invalid_payload, invalid_result, Result,
  ok, err, refuse,
}
use motekarindo_panel.Base.Act.{Act, pure, fail, lift, attempt, ◌>>=◌, ◌>>◌}
use motekarindo_panel.Json.{Fields}
use motekarindo_panel.Agent.PayloadType.{validate_payload_type}
use motekarindo_panel.Agent.Payload.{
  ActionResult, Json, Schema, bad_payload, decode_action_payload, encode_action_result,
}

-- The error of the validator, if any, is not shown.
abbrev pub validated : Result (Unit {0}) → Result (Unit {0})
validated (ok u) = ok u
validated (err e) = err (bad_payload (txt "validation failed"))

module _ (json : Json) where
  module _ {S T : Type 0} where
    -- The handler of an action that `DefineAction` makes.
    unfoldable pub run_action :
        Text
        → Schema T
        → (T → Result (Unit {0}))
        → (T → Act S ActionResult)
        → Text
        → Act S ActionResult
    unfolding decode_action_payload encode_action_result
    run_action name schema validate handler raw = do
      payload ← lift (decode_action_payload json schema raw)
      lift (validated (validate payload))
      result ← handler payload
      let named = record result { action = name }
      encoded ← lift (encode_action_result json named)
      pure (record named { encoded_json = encoded })

-- Action; a nil handler is `none`
pub record Action (S : Type 0) : Type 0 where
  pub name : Text
  pub handler : Option (Text → Act S ActionResult)

abbrev pub bad_action : Text → Error
bad_action m = note (sentinel invalid_action) m

-- The action, if the description of its payload passes.
abbrev pub with_schema : {S : Type 0} → Result (Unit {0}) → Action S → Result (Action S)
with_schema (ok u) action = ok action
with_schema (err e) action = err (bad_action (txt "payload must use an explicit object schema"))

-- `DefineAction`, with the validator and the handler or nil.
unfoldable pub define_action :
    {S T : Type 0}
    → Json
    → Text
    → Schema T
    → Option (T → Result (Unit {0}))
    → Option (T → Act S ActionResult)
    → Result (Action S)
unfolding validate_payload_type trim_space run_action
define_action json name schema none handler =
    if is_empty (trim_space name)
    then err (bad_action (txt "action name is required"))
    else err (bad_action (txt "payload validator is required"))
define_action json name schema (some validate) none =
    if is_empty (trim_space name)
    then err (bad_action (txt "action name is required"))
    else err (bad_action (txt "handler is required"))
define_action json name schema (some validate) (some handler) =
    if is_empty (trim_space name)
    then err (bad_action (txt "action name is required"))
    else with_schema (validate_payload_type schema.described) (record {
      name = trim_space name;
      handler = some (run_action json (trim_space name) schema validate handler);
    })

abbrev pub incomplete : Error
incomplete = bad_action (txt "complete action definition is required")

-- The map of a registry, with the latest name first.
abbrev pub Handlers : Type 0 → Type 0
Handlers S = List (Text × (Text → Act S ActionResult))

module _ {S : Type 0} where
  -- handlers[name]
  unfoldable pub handler_of : Text → Handlers S → Option (Text → Act S ActionResult)
  unfolding same
  handler_of name [] = none
  handler_of name ((n, h) ∷ handlers) = if same n name then some h else handler_of name handlers

  -- `Execute`: the registry is read, and the handler runs on its own state.
  unfoldable pub execute : Handlers S → Text → Text → Act S ActionResult
  unfolding handler_of
  execute handlers name payload = elim (handler_of name handlers) [
    | none ↦ fail (note (sentinel unknown_action) name)
    | some h ↦ h payload
  ]

  -- `Actions`: the names, sorted.
  unfoldable pub actions : Handlers S → List Text
  unfolding text_lt
  actions handlers = sort_by (λ a b. not (text_lt b a)) (map (λ entry. entry.0) handlers)

-- `quote` is %q of fmt.
module _ {S : Type 0} (quote : Text → Text) where
  abbrev pub put_new :
      Text
      → (Text → Act S ActionResult)
      → Option (Text → Act S ActionResult)
      → Handlers S
      → Result (Unit {0}) × Handlers S
  put_new name h (some old) handlers =
      (err (bad_action (txt "action " ++ (quote name ++ txt " already registered"))), handlers)
  put_new name h none handlers = (ok tt, (name, h) ∷ handlers)

  -- `Register`: the error, or nothing, and the map after it.
  unfoldable pub register : Action S → Act (Handlers S) (Unit {0})
  unfolding handler_of
  register action handlers =
      if is_empty action.name then (err incomplete, handlers) else elim action.handler [
        | none ↦ (err incomplete, handlers)
        | some h ↦ put_new action.name h (handler_of action.name handlers) handlers
      ]
