-- ===== src/Agent/Transport/Delivered.antt =====
-- The panel's executor (cmd/motekar-panel/main.go) and client (internal/agent/transport.go) with the
-- agent's server (internal/agent/server.go) at the other end of the socket.
use motekarindo_panel.Base.{
  ◌≡◌, refl, sym, ap, subst, ◌∙◌, ℕ, ◌⊎◌, inl, inr, true, false, Option, none, some, ◌++◌, ltb,
  ◌==◌, arith, Bool-cases,
}
use motekarindo_panel.Base.Text.{Text, txt, same, same_iff, is_empty, byte_len, trim_space}
use motekarindo_panel.Base.Error.{Result, ok, err, is, unknown_action, invalid_payload}
use motekarindo_panel.Jobs.{Job, JobResult}
use motekarindo_panel.Agent.Payload.{ActionResult, Json}
use motekarindo_panel.Agent.Actions.{Handlers, execute}
use motekarindo_panel.Agent.Transport.{
  Exchange, answered, Wire, is_bad_action_payload, max_idempotency_key_bytes,
  max_agent_response_bytes, read_result, after_exchange, execute_job, is_lasting, job_result,
  execute_on_agent,
}
use motekarindo_panel.Agent.Server.{
  Request, complete, Response, refusal, document, answer, written, handle_action,
}
use motekarindo_panel.Agent.Server.Handled.{IsEnvelope, handle_action-IsRun}

-- The request that the client makes, as the server reads it.
abbrev pub request_of : Text → Text → Text → Request
request_of name body key = record {
  name = name;
  idempotency_key = key;
  media_type = some (txt "application/json");
  body = complete body;
}

-- An answer that arrives. `encode` is the JSON of an error's code and message.
abbrev pub arrived : (Text → Text → Text) → Response → Exchange
arrived encode (refusal status code message) = answered status (encode code message)
arrived encode (document text) = answered 200 text

module _ (wire : Wire) where
  -- A job's result has come from an exchange.
  execute_on_agent-exchanged :
      (exchange : Text → Text → Text → Exchange) (job : Job) (r : JobResult)
      → execute_on_agent wire exchange job ≡ ok r
      → job_result wire (
          after_exchange wire (trim_space job.type) (
            exchange
              (trim_space job.type)
              (txt "{\"payload\":" ++ (trim_space job.payload ++ txt "}"))
              (trim_space job.idempotency_key)))
        ≡ ok r
  unfolding execute_on_agent execute_job job_result
  execute_on_agent-exchanged exchange job r h = elim (Bool-cases (is_empty (trim_space job.type))) [
    | inl e ↦ absurd (ground (arith, rw e at h))
    | inr e ↦ elim (Bool-cases (is_bad_action_payload wire (trim_space job.payload))) [
      | inl b ↦ absurd (ground (arith, rw (e, b) at h))
      | inr b ↦
          elim (Bool-cases
            (ltb max_idempotency_key_bytes (byte_len (trim_space job.idempotency_key)))) [
              | inl k ↦ absurd (ground (arith, rw (e, b, k) at h))
              | inr k ↦ rw (e, b, k) at h
            ]
    ]
  ]

  -- What an answer shows of the action's result where the job has one.
  pub record IsShown (name encoded : Text) (r : JobResult) : Type 0 where
    pub shown : ActionResult
    pub is_decoded : wire.result_of encoded ≡ some shown
    pub has_name : shown.action ≡ name
    pub has_status : shown.status ≡ txt "ok"
    pub is_given : job_result wire (inl shown) ≡ ok r

  read_result-IsShown :
      (name encoded : Text) (o : Option ActionResult) (r : JobResult)
      → wire.result_of encoded ≡ o
      → job_result wire (read_result name o) ≡ ok r
      → IsShown name encoded r
  unfolding read_result job_result
  read_result-IsShown name encoded none r d h = absurd (ground (arith, h))
  read_result-IsShown name encoded (some shown) r d h = elim (Bool-cases (same shown.action name)) [
    | inr n ↦ absurd (ground (arith, rw n at h))
    | inl n ↦ elim (Bool-cases (same shown.status (txt "ok"))) [
      | inr m ↦ absurd (ground (arith, rw (n, m) at h))
      | inl m ↦ record {
        shown = shown;
        is_decoded = d;
        has_name = (same_iff shown.action name).0 n;
        has_status = (same_iff shown.status (txt "ok")).0 m;
        is_given = rw (n, m) at h;
      }
    ]
  ]

  answered-IsShown :
      (name : Text) (status : ℕ) (encoded : Text) (r : JobResult)
      → job_result wire (after_exchange wire name (answered status encoded)) ≡ ok r
      → (status ≡ 200) × IsShown name encoded r
  unfolding after_exchange job_result
  answered-IsShown name status encoded r h =
      elim (Bool-cases (ltb max_agent_response_bytes (byte_len encoded))) [
        | inl e ↦ absurd (ground (arith, rw e at h))
        | inr e ↦ elim (Bool-cases (status == 200)) [
          | inr k ↦ absurd (ground (arith, rw (e, k) at h))
          | inl k ↦ (ground (arith, k), read_result-IsShown name encoded _ r refl (rw (e, k) at h))
        ]
      ]

answer-cases :
    (x : Result ActionResult)
    → ((result : ActionResult) × (x ≡ ok result) × (answer x ≡ document result.encoded_json))
      ⊎ ((status : ℕ) × (code : Text) × (message : Text) × (answer x ≡ refusal status code message)
          × ((status == 200) ≡ false))
unfolding answer
answer-cases (ok result) = inl (result, refl, refl)
answer-cases (err e) = elim (Bool-cases (is unknown_action e)) [
  | inl u ↦ inr (404, txt "UNKNOWN_ACTION", txt "Action is not allowlisted.", rw u refl, refl)
  | inr u ↦ elim (Bool-cases (is invalid_payload e)) [
    | inl p ↦ inr (
      400,
      txt "INVALID_ACTION_PAYLOAD",
      txt "Payload does not match the action schema.",
      rw (u, p) refl,
      refl,
    )
    | inr p ↦ inr (500, txt "ACTION_ERROR", txt "Action execution failed.", rw (u, p) refl, refl)
  ]
]

module _ {S : Type 0} (wire : Wire) (encode : Text → Text → Text) (json : Json)
    (handlers : Text → Handlers S) where
  -- The server's answer to a request, and the state that it leaves.
  abbrev pub served : Text → Text → Text → S → Response × S
  served name body key s = handle_action json handlers (request_of name body key) s

  -- The exchange with a server in a state.
  abbrev pub delivered : S → Text → Text → Text → Exchange
  delivered s name body key = arrived encode (served name body key s).0

  -- The action of a job has been run on the agent and returned, and the job's result is read from what
  -- it returned.
  pub record IsDone (job : Job) (s : S) (r : JobResult) : Type 0 where
    pub payload : Text
    pub result : ActionResult
    pub is_envelope :
        IsEnvelope json (txt "{\"payload\":" ++ (trim_space job.payload ++ txt "}")) payload
    pub is_run :
        (execute
          (handlers (trim_space (trim_space job.idempotency_key)))
          (trim_space job.type)
          payload
          s).0
        ≡ ok result
    pub is_left :
        (served
          (trim_space job.type)
          (txt "{\"payload\":" ++ (trim_space job.payload ++ txt "}"))
          (trim_space job.idempotency_key)
          s).1
        ≡ (execute
            (handlers (trim_space (trim_space job.idempotency_key)))
            (trim_space job.type)
            payload
            s).1
    pub is_shown : IsShown wire (trim_space job.type) result.encoded_json r

  refusal-none :
      (name : Text) (status : ℕ) (code message : Text) (r : JobResult)
      → (status == 200) ≡ false
      → job_result wire (after_exchange wire name (arrived encode (refusal status code message)))
        ≡ ok r
      → ⊥
  refusal-none name status code message r n h =
      let (is_200, shown) = answered-IsShown wire name status (encode code message) r h in
      ground (arith, n, is_200)

  not_lasting : (status : ℕ) → is_lasting status ≡ true → (status == 200) ≡ false
  not_lasting status h = ground (arith, h)

  complete-injective : (body text : Text) → complete body ≡ complete text → body ≡ text
  complete-injective body text h = cc

  written-IsShown :
      (name : Text) (x : Result ActionResult × S) (out : Response × S) (r : JobResult)
      → out ≡ written x
      → job_result wire (after_exchange wire name (arrived encode out.0)) ≡ ok r
      → (result : ActionResult) × (x.0 ≡ ok result) × IsShown wire name result.encoded_json r
  written-IsShown name x out r w h =
      let shows =
        λ (o : Response). job_result wire (after_exchange wire name (arrived encode o)) ≡ ok r in
      elim (answer-cases x.0) [
        | inl (result, e, a) ↦ (
          result,
          e,
          (answered-IsShown wire name 200 result.encoded_json r
              (subst shows (ap (λ (o : Response × S). o.0) w ∙ a) h)).1,
        )
        | inr (status, code, message, a, n) ↦ absurd (
            refusal-none name status code message r n
              (subst shows (ap (λ (o : Response × S). o.0) w ∙ a) h))
      ]

  -- A job for which the executor returns a result has had the action of its type run on the agent, on
  -- the payload that the server read from the job's request, and the action returned; the result has the
  -- action's name and the status ok, and the agent is left as the action leaves it. A refusal of the
  -- server or an error of the action never makes a job succeed.
  pub execute_on_agent-IsDone :
      (job : Job) (s : S) (r : JobResult)
      → execute_on_agent wire (delivered s) job ≡ ok r
      → IsDone job s r
  execute_on_agent-IsDone job s r h =
      let name = trim_space job.type in
      let body = txt "{\"payload\":" ++ (trim_space job.payload ++ txt "}") in
      let key = trim_space job.idempotency_key in
      let given = execute_on_agent-exchanged wire (delivered s) job r h in
      elim (handle_action-IsRun json handlers (request_of name body key) s) [
        | inl run ↦
            let (result, e, shown) = written-IsShown name _ _ r run.is_written given in
            record {
              payload = run.payload;
              result = result;
              is_envelope =
                  subst (λ (b : Text). IsEnvelope json b run.payload)
                    (sym (complete-injective body run.body run.is_read)) run.is_envelope;
              is_run = e;
              is_left = ap (λ (o : Response × S). o.1) run.is_written;
              is_shown = shown;
            }
        | inr (o, e, (status, code, message, q, lasting)) ↦ absurd (
            refusal-none name status code message r (not_lasting status lasting) (
              subst
                (λ (x : Response).
                  job_result wire (after_exchange wire name (arrived encode x)) ≡ ok r)
                (ap (λ (x : Response × S). x.0) e ∙ q) given))
      ]
