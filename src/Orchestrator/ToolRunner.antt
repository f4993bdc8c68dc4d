-- ===== src/Orchestrator/ToolRunner.antt =====
-- app/orchestrator/tool_runner.py: the tool calls in the stream of a model's answer.
--
-- What the two regular expressions find in a text is a parameter, and so are the tools and how a value
-- and an exception are written. The events are what is yielded and the calls of tools, in their order.
mod Conserved
mod Unseen
mod Tests
use Prim.Native.String
use ai_chatbot_platform.Prelude.{
  ℕ, Bool, true, false, ◌&&◌, Option, none, some, List, [], ◌∷◌, ◌++◌, String, ltb, leb, str_eq,
  if◌then◌else◌, Dict, lookup, put,
}
use ai_chatbot_platform.Reliability.FailureTracker.{Error}
use ai_chatbot_platform.Reliability.CircuitBreaker.{Outcome, returned, raised}

-- The value of an argument, as it is matched: a text in one of the quotes, or a number.
pub data Argument : Type 0 where
  double_quoted single_quoted digits : String → Argument

pub data Value : Type 0 where
  text : String → Value
  whole decimal : String → Value

-- What stands before a call that is found, its name and arguments, and what stands after it.
pub record Found : Type 0 where
  pub before : String
  pub name : String
  pub args : String
  pub after : String

pub record StreamingToolRunner : Type 0 where
  pub registry : Dict (Dict Value → Outcome String)
  -- `TOOL_PATTERN.search`
  pub search : String → Option Found
  -- the keys and values that are found in the text of the arguments
  pub find_arguments : String → List (String × Argument)
  pub str : Error → String

abbrev pub contains : String → String → Bool
contains needle s = leb (String.find s needle) (String.len s)

abbrev pub value_of : Argument → Value
value_of (double_quoted s) = text s
value_of (single_quoted s) = text s
value_of (digits s) = if contains "." s then decimal s else whole s

unfoldable pub parse_args : List (String × Argument) → Dict Value → Dict Value
parse_args [] args = args
parse_args ((key, a) ∷ found) args = parse_args found (put key (value_of a) args)

-- What is made of the tool's end.
abbrev pub answer_of : StreamingToolRunner → String → Outcome String → String
answer_of r name (returned result) = result
answer_of r name (raised e) =
    String.◌++◌ "Error executing tool " (String.◌++◌ name (String.◌++◌ ": " (r.str e)))

unfoldable pub run_tool : StreamingToolRunner → String → String → String
unfolding parse_args
run_tool r name args_str = elim (lookup name r.registry) [
  | none ↦ String.◌++◌ "Error: Tool '" (String.◌++◌ name "' not found.")
  | some tool ↦ answer_of r name (tool (parse_args (r.find_arguments args_str) []))
]

-- `notice` and `result` stand for the two lines that are yielded around a call.
pub data Event : Type 0 where
  yielded : String → Event
  notice : String → Event
  ran : String → String → Event
  result : String → Event

abbrev pub max_buffer : ℕ
max_buffer = 4096

-- `if buffer: yield buffer`
abbrev pub flushed : String → List Event
flushed String.[] = []
flushed (String.◌∷◌ c s) = yielded (String.◌∷◌ c s) ∷ []

-- A buffer with a tag that is not yet a call is kept, unless it is too long.
abbrev pub waiting : String → String × List Event
waiting buffer =
    if ltb max_buffer (String.count buffer) then ("", yielded buffer ∷ []) else (buffer, [])

-- The events of a call that is found; nothing is left in the buffer.
unfoldable pub called : StreamingToolRunner → Found → String × List Event
unfolding run_tool
called r f = (
  "",
  yielded f.before
      ∷ notice f.name
      ∷ ran f.name f.args
      ∷ result (run_tool r f.name f.args)
      ∷ flushed f.after,
)

-- The body of the loop, on the buffer with the new chunk.
unfoldable pub on_buffer : StreamingToolRunner → String → String × List Event
unfolding called
on_buffer r buffer =
    if contains "<tool_call:" buffer
    then (if contains ">" buffer
        then elim (r.search buffer) [ some f ↦ called r f | none ↦ waiting buffer ]
        else waiting buffer)
    else ("", yielded buffer ∷ [])

unfoldable pub wrap_from : StreamingToolRunner → String → List String → List Event
unfolding on_buffer
wrap_from r buffer [] = flushed buffer
wrap_from r buffer (chunk ∷ chunks) =
    let (rest, events) = on_buffer r (String.◌++◌ buffer chunk) in events ++ wrap_from r rest chunks

unfoldable pub wrap_stream : StreamingToolRunner → List String → List Event
unfolding wrap_from
wrap_stream r chunks = wrap_from r "" chunks
