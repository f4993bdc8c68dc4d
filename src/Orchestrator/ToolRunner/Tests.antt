-- ===== src/Orchestrator/ToolRunner/Tests.antt =====
-- A runner with one tool, and streams that spell a call of it in one chunk and in two.
use Prim.Native.String.{◌++◌}
use mathlib.Core.Path.{subst}
use ai_chatbot_platform.Prelude.{
  ◌≡◌, refl, Option, none, some, [], ◌∷◌, map, String, str_eq, eq_iff, inl, inr, Bool-cases,
  if◌then◌else◌, Dict, lookup,
}
use ai_chatbot_platform.Reliability.CircuitBreaker.{Outcome, returned}
use ai_chatbot_platform.Orchestrator.ToolRunner.{
  Value, Found, StreamingToolRunner, yielded, notice, ran, result, parse_args, run_tool, called,
  on_buffer, wrap_from, wrap_stream,
}
use ai_chatbot_platform.Orchestrator.ToolRunner.Conserved.{
  Splits, call_text, all_spoken, concat, wrap_stream-spoken,
}
use ai_chatbot_platform.Orchestrator.ToolRunner.Unseen.{wrap_stream-untagged}

abbrev time_call : Found
time_call = record { before = "It is "; name = "time"; args = ""; after = "." }

abbrev search_time : String → Option Found
search_time s = if str_eq s "It is <tool_call: time()>." then some time_call else none

abbrev clock : Dict Value → Outcome String
clock args = returned "noon"

abbrev runner : StreamingToolRunner
runner = record {
  registry = ("time", clock) ∷ [];
  search = search_time;
  find_arguments = λ s. [];
  str = λ e. e.name;
}

-- The tag waits for the chunk that closes it.
one_tag :
    wrap_stream runner ("It is <tool_call: " ∷ "time()>." ∷ [])
    ≡ yielded "It is " ∷ notice "time" ∷ ran "time" "" ∷ result "noon" ∷ yielded "." ∷ []
unfolding wrap_stream wrap_from on_buffer called run_tool parse_args lookup
one_tag = refl

runner-Splits : Splits runner
runner-Splits b f e = elim (Bool-cases (str_eq b "It is <tool_call: time()>.")) [
  | inl same ↦
      let found : some time_call ≡ some f = rw same at e in
      let it : time_call ≡ f = cc in
      subst (λ g. b ≡ g.before ++ (call_text g.name g.args ++ g.after)) it
        ((eq_iff b "It is <tool_call: time()>.").0 same)
  | inr other ↦ let nothing : none ≡ some f = rw other at e in absurd (cc)
]

wrap_stream-spoken_example :
    all_spoken (wrap_stream runner ("It is <tool_call: " ∷ "time()>." ∷ []))
    ≡ concat ("It is <tool_call: " ∷ "time()>." ∷ [])
wrap_stream-spoken_example =
    wrap_stream-spoken runner ("It is <tool_call: " ∷ "time()>." ∷ []) runner-Splits

wrap_stream-untagged_example :
    wrap_stream runner ("It is <tool" ∷ "_call: time()>." ∷ [])
    ≡ map yielded ("It is <tool" ∷ "_call: time()>." ∷ [])
wrap_stream-untagged_example =
    wrap_stream-untagged runner ("It is <tool" ∷ "_call: time()>." ∷ []) (refl, (refl, tt))
