-- ===== src/Agents/Llm.antt =====
-- `AgentLlmClient` of backend/app/modules/agents/llm.py: one call of the model, and one repair.
pub mod Repaired
use ai_test.Base.{
  ℕ, zero, suc, String, ◌<>◌, Char, Bool, true, false, Option, none, some, List, [], ◌∷◌,
}
use ai_test.Base.Text
use ai_test.Base.Text.{take, strip_prefix}
use ai_test.Base.Outcome.{Outcome, done, failed, ◌>>=◌, ◌>>◌, map_error}

pub record AgentLlmError : Type 0 where
  pub code : String
  pub message : String
  pub raw_preview : String

-- An answer to a prompt: the key cannot be decrypted, the call fails, or a text.
pub data Answer : Type 0 where
  no_credential : Answer
  no_answer : Answer
  text : String → Answer

-- `value.replace(old, new)`; `skip` counts the characters left of an occurrence
unfoldable pub replace_from : ℕ → String → String → String → String
unfolding strip_prefix
replace_from skip old new String.[] = String.[]
replace_from (suc skip) old new (String.◌∷◌ c s) = replace_from skip old new s
replace_from zero old new (String.◌∷◌ c s) = elim (strip_prefix old (String.◌∷◌ c s)) [
  | none ↦ String.◌∷◌ c (replace_from zero old new s)
  | some rest ↦ new <> replace_from (length_before old) old new s
]
  where
    length_before : String → ℕ
    length_before String.[] = 0
    length_before (String.◌∷◌ d t) = Text.length t

-- `_redact_preview`
unfoldable pub redact_preview : String → String
unfolding take replace_from
redact_preview value = replace_from 0 "Bearer " "Bearer ***" (take 1000 value)

-- `_request`
unfoldable pub read_answer : Answer → Outcome AgentLlmError String
read_answer no_credential =
    failed (record { code = "LLM_CREDENTIAL_INVALID"; message = "LLM 密钥无法解密"; raw_preview = "" })
read_answer no_answer =
    failed (record { code = "LLM_REQUEST_FAILED"; message = "模型调用失败"; raw_preview = "" })
read_answer (text content) = done content

abbrev pub repair_prompt : String → String → String
repair_prompt message raw_output =
    "上一次输出不符合 JSON 结构或平台约束。请只返回修正后的 JSON，不要解释。\n校验错误：" <> message <> "\n原始输出：" <> raw_output

module _ {A : Type 0} (request : String → Answer) (read : String → Outcome String A)
    (validate : A → Outcome String (Unit {0})) where
  abbrev invalid_output : String → String → AgentLlmError
  invalid_output raw_output message = record {
    code = "AGENT_OUTPUT_INVALID";
    message = message;
    raw_preview = redact_preview raw_output;
  }

  -- `_validate`
  unfoldable pub validate_output : String → Outcome AgentLlmError A
  unfolding redact_preview
  validate_output raw_output =
      map_error (invalid_output raw_output)
        (do result ← read raw_output; u ← validate result; done result)

  -- The second validation, whose error is replaced.
  abbrev pub validate_repaired : String → Outcome AgentLlmError A
  validate_repaired raw_output =
      map_error (λ e. invalid_output raw_output "模型输出两次均未通过结构化校验") (validate_output raw_output)

  -- What follows the first validation.
  abbrev pub or_repair : String → Outcome AgentLlmError A → Outcome AgentLlmError A
  or_repair raw_output (done result) = done result
  or_repair raw_output (failed e) = do
    repaired ← read_answer (request (repair_prompt e.message raw_output))
    validate_repaired repaired

  -- `complete_structured`
  unfoldable pub complete_structured : String → Outcome AgentLlmError A
  unfolding read_answer validate_output
  complete_structured user_prompt = do
    raw_output ← read_answer (request user_prompt)
    or_repair raw_output (validate_output raw_output)
