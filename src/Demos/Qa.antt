-- ===== src/Demos/Qa.antt =====
-- examples/enterprise_qa_demo.py: thirty users of five departments ask the gateway at once.
pub mod Laws
use radixgates.Base.{ℕ, suc, List, [], ◌∷◌, ◌++◌, Str, lit, String, ◌%◌, ◌==◌, Option, none, some}
use radixgates.Base.{map, take, get_elem?, Bool, true, false, if◌then◌else◌}
use radixgates.Base.Int.{ℤ, ◌-ℤ◌}
use radixgates.Python.{Exc, Result, ok, raise, ◌>>=◌, or_raise, index_error, key_error}
use radixgates.Python.{json_error, is_exception}
use radixgates.Python.Json.{
  Json, str, obj, arr, bool, nil, cons, end, field, Codec, by_key, first_item,
}
use radixgates.Throughput.{Reply, lost, reply, Exchange, Service, strip_text}

-- `DEPARTMENT_PROMPTS`, whose keys are `DEPARTMENTS`
abbrev pub department_prompts : List (Str × Str)
department_prompts =
    (
      lit "Engineering",
      lit
          "You are a helpful AI assistant serving the Engineering department. Be concise and accurate.",
    )
    ∷ (
      lit "HR",
      lit "You are a helpful AI assistant serving the HR department. Be concise and friendly.",
    )
    ∷ (
      lit "Finance",
      lit "You are a helpful AI assistant serving the Finance department. Be concise and precise.",
    )
    ∷ (
      lit "Product",
      lit "You are a helpful AI assistant serving the Product department. Be concise and clear.",
    )
    ∷ (
      lit "Marketing",
      lit
          "You are a helpful AI assistant serving the Marketing department. Be concise and engaging.",
    )
    ∷ []

-- `EMPLOYEE_QUESTIONS`
abbrev pub employee_questions : List Str
employee_questions =
    lit "I want to know about the revolutionary RadixAttention approach."
    ∷ lit "Which framework uses RadixAttention and what does it do?"
    ∷ lit "Where is the Eiffel Tower located and who built it?"
    ∷ lit "Could you tell me the capital of France?"
    ∷ lit "Hello! Write a 1-sentence greeting for our team."
    ∷ lit "How much is 1 + 1? Be concise."
    ∷ []

-- The department of a user with its prompt, and the user's question; `none` is an IndexError.
unfoldable pub department_of : ℕ → Option (Str × Str)
department_of employee_id = get_elem? department_prompts (employee_id % 5)

unfoldable pub question_of : ℕ → Option Str
question_of employee_id = get_elem? employee_questions (employee_id % 6)

-- the body of the request
unfoldable pub payload : Str → Str → Json
payload system_prompt question = obj (
    field (lit "model") (str (lit "NousResearch/Meta-Llama-3-8B-Instruct")) (
      field (lit "messages")
        (arr (
          cons
            (obj (
              field (lit "role") (str (lit "system"))
                (field (lit "content") (str system_prompt) end)))
            (cons
              (obj
                (field (lit "role") (str (lit "user")) (field (lit "content") (str question) end)))
              nil)))
        (field (lit "stream") (bool false) end)))

-- The message beside the flag: the start of the answer with its time, an HTTP error with the start
-- of its body, or an exception.
pub data Message : Type 0 where
  answered : ℤ → Str → Message
  http : ℕ → Str → Message
  failed : Exc → Message

-- `response.json()["choices"][0]["message"]["content"].strip()`
unfoldable pub read_content : Codec → Str → Result Str
unfolding by_key first_item strip_text
read_content c body = do
  d ← or_raise (c.loads body) json_error
  choices ← by_key d (lit "choices")
  choice ← first_item choices
  message ← by_key choice (lit "message")
  content ← by_key message (lit "content")
  strip_text content

-- `answer[:80].replace("\n", " ")`
unfoldable pub short_answer : Str → Str
short_answer answer = map (λ c. if c == 10 then 32 else c) (take 80 answer)

unfoldable pub content_message : ℤ → Result Str → Result (Bool × Message)
unfolding short_answer
content_message latency (ok answer) = ok (true, answered latency (short_answer answer))
content_message latency (raise e) = if is_exception e then ok (false, failed e) else raise e

-- the `try` of `simulate_employee`
unfoldable pub ask : Codec → Exchange → Reply → Result (Bool × Message)
unfolding read_content content_message
ask c x (lost e) = if is_exception e then ok (false, failed e) else raise e
ask c x (reply status body) =
    if status == 200
    then content_message (x.received -ℤ x.sent) (read_content c body)
    else ok (false, http status (take 100 body))

unfoldable pub simulate_employee : Codec → Service → ℕ → Result (Bool × Message)
unfolding department_of question_of payload ask
simulate_employee c serve employee_id = do
  (name, system_prompt) ← or_raise (department_of employee_id) index_error
  question ← or_raise (question_of employee_id) index_error
  let x = serve employee_id (payload system_prompt question)
  ask c x x.result

-- the loop of `main` over the results, in the order of completion: successes and failures
unfoldable pub count_results : Codec → Service → List ℕ → ℕ → ℕ → Result (ℕ × ℕ)
unfolding simulate_employee
count_results c serve [] success_count fail_count = ok (success_count, fail_count)
count_results c serve (i ∷ order) success_count fail_count = do
  (success, message) ← simulate_employee c serve i
  count_results c serve order (if success then suc success_count else success_count)
      (if success then fail_count else suc fail_count)
