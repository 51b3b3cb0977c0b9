-- ===== src/Agent/Actions/Running.antt =====
-- What an action of the registry has checked before it ran, and after (internal/agent/actions.go).
use motekarindo_panel.Base.{
  ◌≡◌, refl, sym, ap, subst, ◌∙◌, Bool, true, false, not, Option, none, some, any, length, ltb,
  arith, inl, inr, Bool-cases, or-eq-false,
}
use motekarindo_panel.Base.Text.{Text, is_empty, byte_len, trim_space}
use motekarindo_panel.Base.Error.{
  Result, ok, err, ok-injective, sentinel, invalid_result, refuse-eq-ok,
}
use motekarindo_panel.Base.Act.{Act, pure, lift-eq-ok, >>=-eq-ok}
use motekarindo_panel.Agent.Tokens.{reject_duplicate_json_keys}
use motekarindo_panel.Agent.PayloadType.{field_names_match}
use motekarindo_panel.Agent.Payload.{
  ActionResult, Json, Schema, max_action_result_bytes, is_document, is_ok, is_long_log, decoded,
  fitting, decode_action_payload, encode_action_result,
}
use motekarindo_panel.Agent.Actions.{validated, run_action}

-- A payload that has passed every check, with what it was decoded to.
pub record IsPayload (json : Json) {T : Type 0} (schema : Schema T) (raw : Text) (payload : T)
    : Type 0 where
  pub is_object : is_document (trim_space raw) ≡ true
  pub is_unambiguous : reject_duplicate_json_keys (json.tokens (trim_space raw)) ≡ ok tt
  pub has_known_names : field_names_match json.reader schema.described (trim_space raw) ≡ true
  pub is_decoded : schema.decode (trim_space raw) ≡ some payload

-- A result that fits, with its document.
pub record IsEncoded (json : Json) (result : ActionResult) (encoded : Text) : Type 0 where
  pub has_status :
      (is_empty (trim_space result.status) ≡ false) × (ltb 32 (byte_len result.status) ≡ false)
  pub has_few_logs : (ltb 100 (length result.logs) ≡ false) × (any is_long_log result.logs ≡ false)
  pub is_marshalled : json.marshal result ≡ some encoded
  pub is_short : ltb max_action_result_bytes (byte_len encoded) ≡ false

not-false : (b : Bool) → not b ≡ false → b ≡ true
not-false true h = refl
not-false false h = cc

is_ok-ok : (r : Result (Unit {0})) → is_ok r ≡ true → r ≡ ok tt
is_ok-ok (ok u) h = refl
is_ok-ok (err e) h = cc

decoded-eq-ok : {T : Type 0} (o : Option T) (t : T) → decoded o ≡ ok t → o ≡ some t
decoded-eq-ok none t h = cc
decoded-eq-ok (some s) t h = ap some (ok-injective h)

module _ (json : Json) where
  decode_action_payload-IsPayload :
      {T : Type 0} (schema : Schema T) (raw : Text) (payload : T)
      → decode_action_payload json schema raw ≡ ok payload
      → IsPayload json schema raw payload
  unfolding decode_action_payload
  decode_action_payload-IsPayload schema raw payload h =
      let (object, h1) = refuse-eq-ok _ _ _ h in
      let (unique, h2) = refuse-eq-ok _ _ _ h1 in
      let (names, h3) = refuse-eq-ok _ _ _ h2 in
      record {
        is_object = not-false _ object;
        is_unambiguous = is_ok-ok _ (not-false _ unique);
        has_known_names = not-false _ names;
        is_decoded = decoded-eq-ok _ payload h3;
      }

  fitting-eq-ok :
      (made : Option Text) (encoded : Text)
      → fitting made ≡ ok encoded
      → (made ≡ some encoded) × (ltb max_action_result_bytes (byte_len encoded) ≡ false)
  fitting-eq-ok none encoded h = cc
  fitting-eq-ok (some text) encoded h =
      elim (Bool-cases (ltb max_action_result_bytes (byte_len text))) [
        | inl e ↦ absurd (ground (arith, rw e at h))
        | inr e ↦
            let same_text = ok-injective (rw e at h) in
            (
              ap some same_text,
              subst (λ x. ltb max_action_result_bytes (byte_len x) ≡ false) same_text e,
            )
      ]

  encode_action_result-IsEncoded :
      (result : ActionResult) (encoded : Text)
      → encode_action_result json result ≡ ok encoded
      → IsEncoded json result encoded
  unfolding encode_action_result
  encode_action_result-IsEncoded result encoded h =
      let (status, h1) = refuse-eq-ok _ (sentinel invalid_result) _ h in
      let (logs, h2) =
        refuse-eq-ok _ (sentinel invalid_result) (fitting (json.marshal result)) h1 in
      let (rest, many) = or-eq-false _ _ status in
      let (blank, long) = or-eq-false _ _ rest in
      let (made, short) = fitting-eq-ok (json.marshal result) encoded h2 in
      record {
        has_status = (blank, long);
        has_few_logs = (many, logs);
        is_marshalled = made;
        is_short = short;
      }

  module _ {S T : Type 0} (name : Text) (schema : Schema T) (validate : T → Result (Unit {0}))
      (handler : T → Act S ActionResult) where
    -- What stands behind a result of an action: the handler's, under the action's name.
    pub record HasRun (raw : Text) (s s' : S) (result : ActionResult) : Type 0 where
      pub payload : T
      pub inner : ActionResult
      pub is_payload : IsPayload json schema raw payload
      pub is_valid : validate payload ≡ ok tt
      pub is_run : (handler payload s).0 ≡ ok inner
      pub left : s' ≡ (handler payload s).1
      pub encoded : Text
      pub is_encoded : IsEncoded json (record inner { action = name }) encoded
      pub is_returned : result ≡ record inner { action = name; encoded_json = encoded }

    validated-eq-ok : (r : Result (Unit {0})) (u : Unit {0}) → validated r ≡ ok u → r ≡ ok tt
    validated-eq-ok (ok v) u h = refl
    validated-eq-ok (err e) u h = cc

    -- An action that returns a result decoded its payload from one object without ambiguous or unknown
    -- keys, validated it and ran its handler on it, which leaves the state; the result is the handler's
    -- under the action's name, with its document. It has a status of at most 32 bytes, at most 100 logs
    -- with levels of 16 and messages of 1024 bytes at most, and a document of at most 64 KiB.
    pub run_action-HasRun :
        (raw : Text) (s : S) (result : ActionResult)
        → (run_action json name schema validate handler raw s).0 ≡ ok result
        → HasRun raw s (run_action json name schema validate handler raw s).1 result
    unfolding run_action pure
    run_action-HasRun raw s result h =
        let (payload, decode, h1, q1) =
          lift-eq-ok (decode_action_payload json schema raw) _ s result h in
        let (u, valid, h2, q2) = lift-eq-ok (validated (validate payload)) _ s result h1 in
        let (inner, ran, h3, q3) = >>=-eq-ok (handler payload) _ s result h2 in
        let named = record inner { action = name } in
        let (encoded, made, h4, q4) = lift-eq-ok (encode_action_result json named) _ _ result h3 in
        let same_result = ok-injective h4 in
        record {
          payload = payload;
          inner = inner;
          is_payload = decode_action_payload-IsPayload schema raw payload decode;
          is_valid = validated-eq-ok (validate payload) u valid;
          is_run = ran;
          left = q1 ∙ q2 ∙ q3 ∙ q4;
          encoded = encoded;
          is_encoded = encode_action_result-IsEncoded named encoded made;
          is_returned = sym same_result;
        }
