-- ===== src/Orchestrator/Chat.antt =====
-- app/orchestrator/chat_orchestrator.py: `generate_answer`, with app/security/refusal_guard.py.
--
-- The other components are `Services`. A call of one is an event, its answer may depend on all events
-- before it, and it may raise; what a chat leaves is its events in order. Text that only goes into a log,
-- and the keys of a reply that copy a value of a service without use of it, are left out.
mod Writes
mod Persistence
mod Tests
use ai_chatbot_platform.Prelude.{
  ℕ, Bool, true, false, not, ◌&&◌, Option, none, some, List, [], ◌∷◌, ◌++◌, map, String, str_eq,
  if◌then◌else◌,
}
use ai_chatbot_platform.Reliability.FailureTracker.{Error}
use ai_chatbot_platform.Reliability.CircuitBreaker.{Outcome, returned, raised}
use ai_chatbot_platform.Reliability.LoadGuard.{Fraction, zero_fraction}
use ai_chatbot_platform.Prompts.Evolution.{ltb_fraction}
use ai_chatbot_platform.Orchestrator.AgentLoop.{Looped}

pub record Request : Type 0 where
  pub question : String
  pub session_id : String
  pub use_rag : Bool
  pub use_web : Bool
  pub stream : Bool

pub record Gathered : Type 0 where
  pub final_prompt : String
  pub sys_prompt : String
  pub rag_score : Option Fraction
  pub rag_citations : List String

pub record Validation : Type 0 where
  pub is_valid : Bool
  pub issues_count : ℕ
  pub sanitized_response : Option String

pub data Event : Type 0 where
  cache_read routed context_retrieved agents_run extracted : String → Event
  context_gathered : String → String → Event
  model_asked : String → Event
  knowledge_added : String → Event
  graded logged cache_written : String → String → Event
  feedback : String → String → Fraction → Event
  stored : String → String → String → Event
  message_added : String → String → Event

-- The services that answer, given the events before; `write` is a service that only acts.
pub record Services : Type 0 where
  pub scan : String → Bool
  pub cache_get : List Event → String → Outcome (Option String)
  -- `selected_model` and `intent`
  pub route : List Event → String → Outcome (String × String)
  pub retrieve_context : List Event → String → Outcome String
  pub gather_context : List Event → Request → String → Outcome Gathered
  -- `_execute_agent_loop` under the limiter; `none` is a `LoadGuardRejectionError`.
  pub execute_agent_loop : List Event → String → String → Outcome (Option Looped)
  pub safe_llm_ask : List Event → Gathered → String → Outcome String
  pub validate : String → Validation
  -- f"User: {question}\nAssistant: {raw_answer}", and what is found in it
  pub transcript : String → String → String
  pub extract : List Event → String → Outcome String
  -- `overall_grade.get("score")`
  pub grade : List Event → String → String → Outcome (Option Fraction)
  pub write : List Event → Event → Option Error
  pub has_memory_service : Bool

pub data Confidence : Type 0 where
  low medium high : Confidence

-- What the last return statement adds.
pub record Details : Type 0 where
  pub model : String
  pub intent : String
  pub steps : ℕ
  pub is_hallucination_free : Bool
  pub grade_score : Option Fraction
  pub is_valid : Bool
  pub issues_count : ℕ

pub record Answer : Type 0 where
  pub answer : String
  pub confidence : Confidence
  pub used_rag : Bool
  pub used_web : Bool
  pub citations : List String
  pub cached : Bool
  pub details : Option Details

pub data Reply : Type 0 where
  answered : Answer → Reply
  -- `ask_stream` of a prompt, a system prompt and a model, in `wrap_stream`
  streamed : String → String → String → Reply

abbrev pub Chat : Type 0 → Type 0
Chat A = List Event → Outcome A × List Event

abbrev continue_with :
    {A B : Type 0} → (A → Chat B) → Outcome A × List Event → Outcome B × List Event
continue_with f (returned a, h) = f a h
continue_with f (raised e, h) = (raised e, h)

infixl 5 ◌>>=◌ ◌>>◌
abbrev pub ◌>>=◌ : {A B : Type 0} → Chat A → (A → Chat B) → Chat B
◌>>=◌ m f h = continue_with f (m h)

abbrev pub ◌>>◌ : {B : Type 0} → Chat (Unit {0}) → Chat B → Chat B
m >> k = m >>= λ _. k

abbrev pub reply : {A : Type 0} → A → Chat A
reply a h = (returned a, h)

-- A call that answers.
abbrev pub query : {A : Type 0} → Event → (List Event → Outcome A) → Chat A
query ev f h = (f h, h ++ ev ∷ [])

abbrev wrote : Option Error → Outcome (Unit {0})
wrote none = returned tt
wrote (some e) = raised e

-- A call that acts.
abbrev pub perform : Services → Event → Chat (Unit {0})
perform sv ev h = (wrote (sv.write h ev), h ++ ev ∷ [])

unfoldable pub perform_all : Services → List Event → Chat (Unit {0})
perform_all sv [] = reply tt
perform_all sv (ev ∷ evs) = do perform sv ev; perform_all sv evs

abbrev pub refusal_message : String
refusal_message = "I don't have enough reliable information to answer this question."

-- Whether `decide_refusal` refuses: documents are asked for, and the best score is none or below 0.35.
abbrev pub refuses : Bool → Option Fraction → Bool
refuses false score = false
refuses true none = true
refuses true (some score) = ltb_fraction score (record { num = 35; den = 100 })

abbrev pub blocked_answer : Answer
blocked_answer = record {
  answer = "Security Alert: Suspicious input pattern detected. Request blocked.";
  confidence = low;
  used_rag = false;
  used_web = false;
  citations = [];
  cached = false;
  details = none;
}

abbrev pub cached_answer : String → Answer
cached_answer text = record blocked_answer { answer = text; confidence = high; cached = true }

abbrev pub refusal_answer : Request → Gathered → Answer
refusal_answer req data' = record blocked_answer {
  answer = refusal_message;
  used_rag = req.use_rag;
  used_web = req.use_web;
  citations = data'.rag_citations;
}

-- `if validation.sanitized_response`
abbrev pub sanitized : Option String → String → String
sanitized none raw_answer = raw_answer
sanitized (some s) raw_answer = if str_eq s "" then raw_answer else s

abbrev pub or_zero : Option Fraction → Fraction
or_zero none = zero_fraction
or_zero (some score) = score

-- Steps 5 and 6 behind the grade: the feedback, the dataset, the memory, the messages and the cache.
abbrev pub persisted : Services → Request → String → List (String × String) → Fraction → List Event
persisted sv req answer versions score =
    map (λ v. feedback v.0 v.1 score) versions
    ++ logged req.question answer
      ∷ stored req.session_id req.question answer
      ∷ (if sv.has_memory_service
          then message_added "user" req.question ∷ message_added "assistant" answer ∷ []
          else [])
    ++ cache_written req.question answer ∷ []

abbrev pub final_answer :
    Request → Gathered → String × String → Looped → Validation → String → Option Fraction → Answer
final_answer req data' routed' run validation answer grade = record {
  answer = answer;
  confidence = if ltb_fraction (record { num = 8; den = 10 }) (or_zero grade) then high else medium;
  used_rag = req.use_rag;
  used_web = req.use_web;
  citations = data'.rag_citations;
  cached = false;
  details = some (record {
    model = routed'.0;
    intent = routed'.1;
    steps = run.steps;
    is_hallucination_free = not run.hallucinations_detected;
    grade_score = grade;
    is_valid = validation.is_valid;
    issues_count = validation.issues_count;
  });
}

-- Steps 4 to 6, and the last return statement.
unfoldable pub conclude : Services → Request → Gathered → String × String → Looped → Chat Reply
unfolding perform_all
conclude sv req data' routed' run =
    let validation = sv.validate run.answer in
    let answer = sanitized validation.sanitized_response run.answer in
    let text = sv.transcript req.question answer in
    do
      kg_data ← query (extracted text) (λ h. sv.extract h text)
      perform sv (knowledge_added kg_data)
      grade ← query (graded req.question answer) (λ h. sv.grade h req.question answer)
      perform_all sv (persisted sv req answer run.used_versions (or_zero grade))
      reply (answered (final_answer req data' routed' run validation answer grade))

-- The agents, or the model alone where the limiter rejects them.
unfoldable pub run_agents : Services → Request → Gathered → String → Option Looped → Chat Looped
run_agents sv req data' model (some run) = reply run
run_agents sv req data' model none = do
  text ← query (model_asked model) (λ h. sv.safe_llm_ask h data' model)
  reply (record { answer = text; hallucinations_detected = false; steps = 0; used_versions = [] })

-- Steps 3 to 6.
unfoldable pub answer_gathered : Services → Request → Gathered → String × String → Chat Reply
unfolding conclude run_agents
answer_gathered sv req data' routed' =
    if req.stream then reply (streamed data'.final_prompt data'.sys_prompt routed'.0) else do
      looped ←
          query (agents_run req.question) (λ h. sv.execute_agent_loop h req.question req.session_id)
      run ← run_agents sv req data' routed'.0 looped
      conclude sv req data' routed' run

-- Step 2.
unfoldable pub answer_unless_refused : Services → Request → String × String → Gathered → Chat Reply
unfolding answer_gathered
answer_unless_refused sv req routed' data' =
    if refuses req.use_rag data'.rag_score
    then reply (answered (refusal_answer req data'))
    else answer_gathered sv req data' routed'

-- Step 1, and what follows.
unfoldable pub answer_uncached : Services → Request → Chat Reply
unfolding answer_unless_refused
answer_uncached sv req = do
  routed' ← query (routed req.question) (λ h. sv.route h req.question)
  context ← query (context_retrieved req.question) (λ h. sv.retrieve_context h req.question)
  data' ← query (context_gathered req.question context) (λ h. sv.gather_context h req context)
  answer_unless_refused sv req routed' data'

unfoldable pub after_cache : Services → Request → Option String → Chat Reply
unfolding answer_uncached
after_cache sv req none = answer_uncached sv req
after_cache sv req (some text) =
    if str_eq text "" then answer_uncached sv req else reply (answered (cached_answer text))

unfoldable pub generate_answer : Services → Request → Chat Reply
unfolding after_cache
generate_answer sv req = if sv.scan req.question then reply (answered blocked_answer) else do
  cached_response ← query (cache_read req.question) (λ h. sv.cache_get h req.question)
  after_cache sv req cached_response
