-- ===== src/Agent/Transport/Outcome.antt =====
-- When the panel does not know what the agent has done with a job (internal/agent/transport.go and
-- cmd/motekar-panel/main.go).
use motekarindo_panel.Base.{
  ◌≡◌, refl, ℕ, Bool, true, false, ◌&&◌, ◌||◌, not, inl, inr, Option, none, some, ltb, ◌==◌,
  Bool-cases, ◌++◌,
}
use motekarindo_panel.Base.Text.{Text, txt, same, is_empty, byte_len, trim_space}
use motekarindo_panel.Base.Error.{Result, ok, err}
use motekarindo_panel.Jobs.{Job, JobResult}
use motekarindo_panel.Jobs.Worker.{is_uncertain}
use motekarindo_panel.Agent.Payload.{ActionResult}
use motekarindo_panel.Agent.Transport.{
  protocol, remote, Exchange, unmade, broken_off, unread, answered, Wire, is_bad_action_payload,
  max_idempotency_key_bytes, max_agent_response_bytes, remote_code, read_result, after_exchange,
  execute_job, error_of, is_lasting, classified, with_data, data_of, job_result, execute_on_agent,
}

-- The request may have been read by the agent, and its answer has not been read.
pub is_open : Exchange → Bool
is_open (unmade e) = false
is_open (broken_off wrote e) = wrote
is_open (unread e) = true
is_open (answered status encoded) = false

-- The error of an exchange is one of the network's, which no caller has marked.
unfoldable pub IsForeign : Exchange → Type 0
IsForeign (unmade e) = is_uncertain e ≡ false
IsForeign (broken_off wrote e) = is_uncertain e ≡ false
IsForeign (unread e) = Unit {0}
IsForeign (answered status encoded) = Unit {0}

-- A job whose request is made.
pub is_sendable : Wire → Job → Bool
is_sendable wire job =
    not (is_empty (trim_space job.type))
    && not (is_bad_action_payload wire (trim_space job.payload))
    && not (ltb max_idempotency_key_bytes (byte_len (trim_space job.idempotency_key)))

-- The worker tells the queue nothing.
pub is_unknown : Result JobResult → Bool
is_unknown (ok r) = false
is_unknown (err e) = is_uncertain e

with_data-known :
    (result : ActionResult) (o : Option Text) → is_unknown (with_data result o) ≡ false
unfolding is_unknown is_uncertain
with_data-known result none = refl
with_data-known result (some t) = refl

remote-known :
    (wire : Wire) (status : ℕ) (code : Text)
    → is_unknown (job_result wire (inr (remote status code))) ≡ false
unfolding is_unknown job_result classified error_of is_uncertain
remote-known wire status code = elim (Bool-cases (is_lasting status)) [
  | inl e ↦ rw e refl
  | inr e ↦ rw e refl
]

protocol_known : (wire : Wire) (m : Text) → is_unknown (job_result wire (inr (protocol m))) ≡ false
unfolding is_unknown job_result classified error_of is_uncertain
protocol_known wire m = refl

done_known : (wire : Wire) (r : ActionResult) → is_unknown (job_result wire (inl r)) ≡ false
unfolding job_result
done_known wire r = with_data-known r (data_of wire r.body)

read_result-known :
    (wire : Wire) (name : Text) (o : Option ActionResult)
    → is_unknown (job_result wire (read_result name o)) ≡ false
unfolding read_result
read_result-known wire name none = protocol_known wire _
read_result-known wire name (some r) =
    elim (Bool-cases (not (same r.action name) || not (same r.status (txt "ok")))) [
      | inl e ↦ rw e (protocol_known wire _)
      | inr e ↦ rw e (done_known wire r)
    ]

after_exchange-is_open :
    (wire : Wire) (name : Text) (x : Exchange)
    → IsForeign x
    → is_unknown (job_result wire (after_exchange wire name x)) ≡ is_open x
unfolding after_exchange is_open IsForeign job_result classified error_of is_unknown is_uncertain
after_exchange-is_open wire name (unmade e) f = f
after_exchange-is_open wire name (broken_off true e) f = refl
after_exchange-is_open wire name (broken_off false e) f = f
after_exchange-is_open wire name (unread e) f = refl
after_exchange-is_open wire name (answered status encoded) f =
    elim (Bool-cases (ltb max_agent_response_bytes (byte_len encoded))) [
      | inl e ↦ rw e refl
      | inr e ↦ elim (Bool-cases (status == 200)) [
        | inl k ↦ rw (e, k) (read_result-known wire name (wire.result_of encoded))
        | inr k ↦ rw (e, k) (remote-known wire status (remote_code (wire.code_of encoded)))
      ]
    ]

module _ (wire : Wire) (exchange : Text → Text → Text → Exchange)
    (foreign : (name body key : Text) → IsForeign (exchange name body key)) where
  -- The request of a job.
  abbrev pub exchanged : Job → Exchange
  exchanged job =
      exchange (trim_space job.type) (txt "{\"payload\":" ++ (trim_space job.payload ++ txt "}"))
        (trim_space job.idempotency_key)

  -- The executor's outcome is unknown to the worker exactly if the job's request was made and may have
  -- been read by the agent, and its answer was not read: `Do` failed after the request was written, or
  -- the body was not read. What goes wrong before, and what an answer says, is known.
  pub execute_on_agent-is_open :
      (job : Job)
      → is_unknown (execute_on_agent wire exchange job)
        ≡ (is_sendable wire job && is_open (exchanged job))
  unfolding execute_on_agent execute_job is_sendable
  execute_on_agent-is_open job = elim (Bool-cases (is_empty (trim_space job.type))) [
    | inl e ↦ rw e (protocol_known wire _)
    | inr e ↦ elim (Bool-cases (is_bad_action_payload wire (trim_space job.payload))) [
      | inl b ↦ rw (e, b) (protocol_known wire _)
      | inr b ↦
          elim (Bool-cases
            (ltb max_idempotency_key_bytes (byte_len (trim_space job.idempotency_key)))) [
              | inl k ↦ rw (e, b, k) (protocol_known wire _)
              | inr k ↦
                  rw (e, b, k)
                    (after_exchange-is_open wire (trim_space job.type) (exchanged job)
                      (foreign _ _ _))
            ]
    ]
  ]
