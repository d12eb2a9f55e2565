-- ===== src/Agents/Llm/Repaired.antt =====
-- Nothing is accepted from the model without its validation.
use ai_test.Base.{String, ◌≡◌, refl, subst, true, [], ◌∷◌}
use ai_test.Base.Dict.{mem}
use ai_test.Base.Outcome.{
  Outcome, done, failed, ◌>>=◌, map_error, >>=-eq-done, map_error-eq-done, done-injective,
}
use ai_test.Agents.Llm.{
  AgentLlmError, Answer, no_credential, no_answer, text, read_answer, repair_prompt, redact_preview,
  validate_output, validate_repaired, or_repair, complete_structured,
}

module _ {A : Type 0} (request : String → Answer) (read : String → Outcome String A)
    (validate : A → Outcome String (Unit {0})) where
  -- A result that was read from an answer and passed the validation, or one of three errors.
  pub data IsValidated : Outcome AgentLlmError A → Type 0 where
    accepted :
        (prompt raw_output : String) (result : A)
        → request prompt ≡ text raw_output
        → read raw_output ≡ done result
        → validate result ≡ done tt
        → IsValidated (done result)
    refused :
        (e : AgentLlmError)
        → mem e.code ("LLM_CREDENTIAL_INVALID" ∷ "LLM_REQUEST_FAILED" ∷ "AGENT_OUTPUT_INVALID" ∷ [])
          ≡ true
        → IsValidated (failed e)

  output-IsValidated :
      (prompt raw_output : String) (result : A)
      → request prompt ≡ text raw_output
      → validate_output request read validate raw_output ≡ done result
      → IsValidated (done result)
  unfolding validate_output
  output-IsValidated prompt raw_output result a h =
      let m = map_error-eq-done _ _ h in
      let (r, e, h1) = >>=-eq-done (read raw_output) _ m in
      let (u, e1, h2) = >>=-eq-done (validate r) _ h1 in
      subst (λ x. IsValidated (done x)) (done-injective h2) (accepted prompt raw_output r a e e1)

  ask-IsValidated :
      (prompt : String) (next : String → Outcome AgentLlmError A) (answer : Answer)
      → request prompt ≡ answer
      → ((raw_output : String) → request prompt ≡ text raw_output → IsValidated (next raw_output))
      → IsValidated (read_answer answer >>= next)
  unfolding read_answer
  ask-IsValidated prompt next no_credential h k = refused _ refl
  ask-IsValidated prompt next no_answer h k = refused _ refl
  ask-IsValidated prompt next (text raw_output) h k = k raw_output h

  repaired-IsValidated :
      (prompt raw_output : String) (r : Outcome AgentLlmError A)
      → request prompt ≡ text raw_output
      → validate_output request read validate raw_output ≡ r
      → IsValidated (
          map_error
            (λ e. record {
              code = "AGENT_OUTPUT_INVALID";
              message = "模型输出两次均未通过结构化校验";
              raw_preview = redact_preview raw_output;
            })
            r)
  repaired-IsValidated prompt raw_output (done result) a h =
      output-IsValidated prompt raw_output result a h
  repaired-IsValidated prompt raw_output (failed e) a h = refused _ refl

  or_repair-IsValidated :
      (prompt raw_output : String) (r : Outcome AgentLlmError A)
      → request prompt ≡ text raw_output
      → validate_output request read validate raw_output ≡ r
      → IsValidated (or_repair request read validate raw_output r)
  or_repair-IsValidated prompt raw_output (done result) a h =
      output-IsValidated prompt raw_output result a h
  or_repair-IsValidated prompt raw_output (failed e) a h =
      ask-IsValidated (repair_prompt e.message raw_output) (validate_repaired request read validate)
        _ refl
        (λ repaired b. repaired-IsValidated (repair_prompt e.message raw_output) repaired _ b refl)

  -- Whatever the model answers, a result is accepted only if it was read from one of its answers and
  -- passed the validation; else the call ends with one of three error codes.
  pub complete_structured-IsValidated :
      (user_prompt : String) → IsValidated (complete_structured request read validate user_prompt)
  unfolding complete_structured
  complete_structured-IsValidated user_prompt =
      ask-IsValidated user_prompt
        (λ raw_output.
          or_repair request read validate raw_output
            (validate_output request read validate raw_output))
        (request user_prompt) refl
        (λ raw_output a. or_repair-IsValidated user_prompt raw_output _ a refl)
