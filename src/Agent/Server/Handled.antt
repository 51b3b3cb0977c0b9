-- ===== src/Agent/Server/Handled.antt =====
-- What becomes of an action's request (internal/agent/server.go).
use motekarindo_panel.Base.{
  ◌≡◌, refl, ap, ℕ, ◌⊎◌, inl, inr, true, false, Option, none, some, List, [], ◌∷◌, ltb, arith,
  Bool-cases,
}
use motekarindo_panel.Base.Text.{Text, txt, same, same_iff, byte_len, trim_space}
use motekarindo_panel.Agent.Tokens.{reject_duplicate_json_keys}
use motekarindo_panel.Agent.Payload.{Json, is_ok, is_document}
use motekarindo_panel.Agent.Actions.{Handlers, execute}
use motekarindo_panel.Agent.Transport.{
  max_action_payload_bytes, max_idempotency_key_bytes, is_lasting,
}
use motekarindo_panel.Agent.Server.{
  Request, Body, complete, interrupted, Response, refusal, max_action_request_bytes, is_json,
  invalid_json, large_payload, large_body, long_key, other_media_type, only_payload, sized_payload,
  is_bad_body, body_payload, request_payload, written, run_checked, handle_action,
}

-- A refusal whose status tells the panel not to try again.
abbrev pub IsLasting : Response → Type 0
IsLasting response =
    (status : ℕ) × (code : Text) × (message : Text) × (response ≡ refusal status code message)
    × (is_lasting status ≡ true)

invalid_json-IsLasting : IsLasting invalid_json
invalid_json-IsLasting = (400, _, _, refl, refl)

-- A payload that stands alone in the envelope of a body.
pub record IsEnvelope (json : Json) (body payload : Text) : Type 0 where
  pub member : Text
  pub is_small : ltb max_action_request_bytes (byte_len body) ≡ false
  pub is_unambiguous : is_ok (reject_duplicate_json_keys (json.tokens (trim_space body))) ≡ true
  pub is_alone : json.reader.members (trim_space body) ≡ some ((txt "payload", member) ∷ [])
  pub is_trimmed : payload ≡ trim_space member
  pub is_object : is_document payload ≡ true
  pub is_short : ltb max_action_payload_bytes (byte_len payload) ≡ false

sized_payload-cases :
    (o : Option Text)
    → ((payload : Text) × (sized_payload o ≡ inl payload)
        × (o ≡ some payload)
        × (is_document payload ≡ true)
        × (ltb max_action_payload_bytes (byte_len payload) ≡ false))
      ⊎ ((r : Response) × (sized_payload o ≡ inr r) × IsLasting r)
unfolding sized_payload
sized_payload-cases none = inr (invalid_json, refl, invalid_json-IsLasting)
sized_payload-cases (some payload) = elim (Bool-cases (is_document payload)) [
  | inr d ↦ inr (invalid_json, rw d refl, invalid_json-IsLasting)
  | inl d ↦ elim (Bool-cases (ltb max_action_payload_bytes (byte_len payload))) [
    | inl b ↦ inr (large_payload, rw (d, b) refl, (413, _, _, refl, refl))
    | inr b ↦ inl (payload, rw (d, b) refl, refl, d, b)
  ]
]

only_payload-eq-some :
    (members : Option (List (Text × Text))) (payload : Text)
    → only_payload members ≡ some payload
    → (member : Text) × (members ≡ some ((txt "payload", member) ∷ []))
      × (payload ≡ trim_space member)
unfolding only_payload
only_payload-eq-some none payload h = ground (arith, h)
only_payload-eq-some (some []) payload h = ground (arith, h)
only_payload-eq-some (some ((k, v) ∷ [])) payload h = elim (Bool-cases (same k (txt "payload"))) [
  | inl e ↦ (
    v,
    ap (λ (n : Text). some ((n, v) ∷ [])) ((same_iff k (txt "payload")).0 e),
    ground (arith, rw e at h),
  )
  | inr e ↦ absurd (ground (arith, rw e at h))
]
only_payload-eq-some (some (m ∷ n ∷ members)) payload h = ground (arith, h)

body_payload-cases :
    (json : Json) (body : Body)
    → ((text payload : Text) × (body_payload json body ≡ inl payload)
        × (body ≡ complete text)
        × IsEnvelope json text payload)
      ⊎ ((r : Response) × (body_payload json body ≡ inr r) × IsLasting r)
unfolding body_payload
body_payload-cases json interrupted = inr (invalid_json, refl, invalid_json-IsLasting)
body_payload-cases json (complete text) =
    elim (Bool-cases (ltb max_action_request_bytes (byte_len text))) [
      | inl b ↦ inr (large_body, rw b refl, (413, _, _, refl, refl))
      | inr b ↦ elim (Bool-cases (is_bad_body json (trim_space text))) [
        | inl k ↦ inr (invalid_json, rw (b, k) refl, invalid_json-IsLasting)
        | inr k ↦
            elim (sized_payload-cases (only_payload (json.reader.members (trim_space text)))) [
              | inr (r, e, lasting) ↦ inr (r, rw (b, k) e, lasting)
              | inl (payload, e, only, d, short) ↦
                  let (member, alone, trimmed) = only_payload-eq-some _ payload only in
                  inl (
                    text,
                    payload,
                    rw (b, k) e,
                    refl,
                    record {
                      member = member;
                      is_small = b;
                      is_unambiguous = ground (arith, k);
                      is_alone = alone;
                      is_trimmed = trimmed;
                      is_object = d;
                      is_short = short;
                    },
                  )
            ]
      ]
    ]

json_type : (o : Option Text) → is_json o ≡ true → o ≡ some (txt "application/json")
json_type none h = ground (arith, h)
json_type (some t) h = ap (λ (x : Text). some x) ((same_iff t (txt "application/json")).0 h)

module _ {S : Type 0} (json : Json) (handlers : Text → Handlers S) where
  -- The action of a request that passes every check has been run, once, on the state before.
  pub record IsRun (request : Request) (s : S) (out : Response × S) : Type 0 where
    pub body : Text
    pub payload : Text
    pub has_short_key :
        ltb max_idempotency_key_bytes (byte_len (trim_space request.idempotency_key)) ≡ false
    pub has_json_type : request.media_type ≡ some (txt "application/json")
    pub is_read : request.body ≡ complete body
    pub is_envelope : IsEnvelope json body payload
    pub is_written :
        out
        ≡ written (execute (handlers (trim_space request.idempotency_key)) request.name payload s)

  refused :
      (request : Request) (s : S) (r : Response)
      → request_payload json request ≡ inr r
      → handle_action json handlers request s ≡ (r, s)
  unfolding handle_action
  refused request s r e =
      ap (run_checked (handlers (trim_space request.idempotency_key)) request.name s) e

  ran :
      (request : Request) (s : S) (payload : Text)
      → request_payload json request ≡ inl payload
      → handle_action json handlers request s
        ≡ written (execute (handlers (trim_space request.idempotency_key)) request.name payload s)
  unfolding handle_action
  ran request s payload e =
      ap (run_checked (handlers (trim_space request.idempotency_key)) request.name s) e

  -- Every request of an action is either refused with nothing run, with a status for which the panel
  -- does not try its job again, or it has a key of at most 128 bytes, the media type of JSON, and a body
  -- within the limit without a repeated key whose one member is a payload, an object of at most 64 KiB,
  -- and the answer is that of the action of its name, run once on the payload.
  pub handle_action-IsRun :
      (request : Request) (s : S)
      → IsRun request s (handle_action json handlers request s)
        ⊎ ((r : Response) × (handle_action json handlers request s ≡ (r, s)) × IsLasting r)
  unfolding request_payload
  handle_action-IsRun request s =
      elim (Bool-cases
        (ltb max_idempotency_key_bytes (byte_len (trim_space request.idempotency_key)))) [
          | inl k ↦ inr (long_key, refused request s long_key (rw k refl), (400, _, _, refl, refl))
          | inr k ↦ elim (Bool-cases (is_json request.media_type)) [
            | inr m ↦ inr (
              other_media_type,
              refused request s other_media_type (rw (k, m) refl),
              (415, _, _, refl, refl),
            )
            | inl m ↦ elim (body_payload-cases json request.body) [
              | inr (r, e, lasting) ↦ inr (r, refused request s r (rw (k, m) e), lasting)
              | inl (text, payload, e, read, envelope) ↦ inl (record {
                body = text;
                payload = payload;
                has_short_key = k;
                has_json_type = json_type request.media_type m;
                is_read = read;
                is_envelope = envelope;
                is_written = ran request s payload (rw (k, m) e);
              })
            ]
          ]
        ]
