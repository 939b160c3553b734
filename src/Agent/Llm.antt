-- ===== src/Agent/Llm.antt =====
-- internal/agent/llm.go: the requests to a language model, with their retries. Where a key is set, the
-- circuit breaker of gobreaker stands around `generate`; what the network answers is an argument.
use Prim.Native.String.{◌++◌ as str_append}
use pads_v.Common.{
  ℕ, zero, suc, ◌*◌, String, Bool, true, false, not, ◌&&◌, Option, none, some, List, [], ◌∷◌,
  if◌then◌else◌, ltb, eqb, ◌==◌, Result, ok, err,
}
use pads_v.Common.Float.{Float}
use pads_v.Common.Int.{pos}
use pads_v.Agent.Coder.{CodeResponse}

pub record CodePrompt (F : Type 0) : Type 0 where
  pub task : String
  pub file_path : String
  pub language : String
  pub context : String
  pub constraints : String
  pub temperature : F

pub record Client : Type 0 where
  pub api_key : String
  pub model : String
  pub base_url : String
  -- in nanoseconds
  pub timeout : ℕ

-- What one attempt comes to: the request is not sent, the API answers another status than 200, the
-- body is not JSON, it has no choices, or it has a first one.
pub data Attempt : Type 0 where
  unsent : String → Attempt
  refused : (status : ℕ) → Attempt
  undecodable : String → Attempt
  no_choices : Attempt
  content : String → Attempt

pub data LlmError : Type 0 where
  send_error : String → LlmError
  api_error : (status : ℕ) → LlmError
  decode_error : String → LlmError
  no_response : LlmError

abbrev pub max_retries : ℕ
max_retries = 3

abbrev pub second : ℕ
second = 1000000000

abbrev pub initial_backoff : ℕ
initial_backoff = second

abbrev pub max_backoff : ℕ
max_backoff = 8 * second

-- The error of an attempt, and whether the loop goes on.
unfoldable pub attempt_error : Attempt → LlmError × Bool
attempt_error (unsent e) = (send_error e, true)
attempt_error (refused status) = (api_error status, not (ltb status 500 && not (eqb status 429)))
attempt_error (undecodable e) = (decode_error e, true)
attempt_error no_choices = (no_response, true)
attempt_error (content text) = (no_response, false)

abbrev pub next_backoff : ℕ → ℕ
next_backoff backoff = if ltb max_backoff (backoff * 2) then max_backoff else backoff * 2

-- The loop of doGenerate over the attempts that are left; it gives the text of the answer or the last
-- error, and the times that it slept before a further attempt.
unfoldable pub attempts : ℕ → ℕ → ℕ → LlmError → (ℕ → Attempt) → Result LlmError String × List ℕ
attempts zero tried backoff last answers = (err last, [])
attempts (suc left) tried backoff last answers =
    let slept = if eqb tried 0 then [] else backoff ∷ [] in
    let backoff' = if eqb tried 0 then backoff else next_backoff backoff in
    let (e, again) = attempt_error (answers tried) in
    let (result, sleeps) = attempts left (suc tried) backoff' e answers in
    elim (answers tried) [
      | content text ↦ (ok text, slept)
      | other ↦
          if again
          then (result, (if eqb tried 0 then sleeps else backoff ∷ sleeps))
          else (err e, slept)
    ]

-- doGenerate, before the answer is parsed
unfoldable pub generate : (ℕ → Attempt) → Result LlmError String × List ℕ
unfolding attempts
generate answers = attempts max_retries 0 initial_backoff no_response answers

module _ (fl : Float) where
  open fl use {F}

  unfoldable pub temperature_for : F → F
  temperature_for temp = if fl.lt fl.zero temp then temp else fl.ratio (pos 3) (pos 10)

  -- parseResponse, with `json.Unmarshal` as an argument and the explanation of the client
  unfoldable pub parse_response :
      (String → Option (CodeResponse F)) → String → String → CodeResponse F
  parse_response unmarshal explanation text = elim (unmarshal text) [
    | some resp ↦ resp
    | none ↦ record {
      patch = text;
      explanation = explanation;
      confidence = fl.ratio (pos 7) (pos 10);
      warnings = [];
    }
  ]

  -- mockResponse, with the name of the variable that holds the key
  unfoldable pub mock_response : String → CodePrompt F → CodeResponse F
  mock_response variable prompt = record {
    patch = str_append "// Mock: set " (str_append variable " to enable real LLM calls");
    explanation =
        str_append "Mock response for task: "
          (str_append prompt.task (str_append " on " prompt.file_path));
    confidence = fl.ratio (pos 5) (pos 10);
    warnings = str_append "Running in mock mode - set " variable ∷ [];
  }

  abbrev pub dummy_key : String
  dummy_key = "dummy-key-for-development"

  abbrev parsed :
      (String → Option (CodeResponse F)) → Result LlmError String → Result LlmError (CodeResponse F)
  parsed unmarshal (ok text) = ok (parse_response unmarshal "Generated by NVIDIA LLM" text)
  parsed unmarshal (err e) = err e

  -- GenerateCode of the Nvidia client, with its breaker closed
  unfoldable pub generate_code :
      (String → Option (CodeResponse F))
      → (ℕ → Attempt)
      → Client
      → CodePrompt F
      → Result LlmError (CodeResponse F)
  unfolding parse_response mock_response generate
  generate_code unmarshal answers c prompt =
      let real = parsed unmarshal (generate answers).0 in
      if c.api_key == dummy_key then ok (mock_response "NVIDIA_API_KEY" prompt) else real

abbrev or_default : String → String → String
or_default default value = if value == "" then default else value

-- NewNvidiaClient; `environment` is os.Getenv
unfoldable pub new_nvidia_client : (String → String) → String → Client
new_nvidia_client environment model = record {
  api_key = or_default "dummy-key-for-development" (environment "NVIDIA_API_KEY");
  model = model;
  base_url = or_default "https://integrate.api.nvidia.com/v1" (environment "NVIDIA_BASE_URL");
  timeout = 120 * second;
}

-- NewOpenAIClient
unfoldable pub new_open_ai_client : (String → String) → String → Client
new_open_ai_client environment model = record {
  api_key = or_default "dummy-key-for-development" (environment "OPENAI_API_KEY");
  model = model;
  base_url = or_default "https://api.openai.com/v1" (environment "OPENAI_BASE_URL");
  timeout = 60 * second;
}

-- NewDefaultLLMClient
unfoldable pub new_default_llm_client : (String → String) → Client
unfolding new_nvidia_client
new_default_llm_client environment =
    new_nvidia_client environment
      (or_default "meta/llama-3.1-70b-instruct" (environment "NVIDIA_MODEL"))
