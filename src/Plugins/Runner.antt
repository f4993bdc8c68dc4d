-- ===== src/Plugins/Runner.antt =====
-- app/plugins/registry.py and app/plugins/plugin_runtime.py: a call of a plugin's tool, from the
-- parent's request over the child's `main` to the parent's result.
--
-- The plugin modules are a parameter: whether a module imports, whether it has the function, and what
-- that gives or raises. What it prints is part of it. Times are left out. `Popen` may raise, and a child
-- that takes too long is killed: both are outcomes of the operating system.
mod EndToEnd
mod Responses
mod Tests
use ai_chatbot_platform.Prelude.{
  ℕ, suc, ◌+◌, ◌*◌, ◌-◌, Bool, true, false, not, ◌||◌, str_eq, Option, none, some, List, [], ◌∷◌,
  ◌++◌, String, ltb, ◌==◌, length, take, drop, if◌then◌else◌, Dict, lookup,
}
use ai_chatbot_platform.Plugins.PyInt.{Bytes, str, int}
use ai_chatbot_platform.Plugins.Protocol.{
  Value, null, empty_dict, truth, text, other, Message, Loaded, malformed, null_document,
  not_a_dict, object, Json, max_payload, write_message, readline, get, PluginRequest,
  PluginResponse, request_to_dict, response_to_dict, response_from_dict,
}

-- An exception that a plugin raises, with its type and its text.
pub record PluginError : Type 0 where
  pub type : String
  pub message : String

-- What a call of a plugin's function gives, and what it printed.
pub record Ran (J : Type 0) : Type 0 where
  pub outcome : Option (Value J)
  pub failure : PluginError
  pub printed : String
  pub complained : String

-- How a child ends for the parent: it exits with a code and its output, is killed, or never starts.
pub data Process : Type 0 where
  exited : ℕ → Bytes → Bytes → Process
  killed : Bytes → Process
  launch_failed : PluginError → Process

pub record Platform (J : Type 0) : Type 0 where
  pub json : Json J
  -- `getattr(import_module(module), function)(**kwargs)`, for the values in the request
  pub call : Value J → Value J → Value J → Ran J
  -- `[:4096]`
  pub clip : String → String
  -- `data.decode("utf-8", errors="replace")[:4096]`
  pub safe_decode : Bytes → String
  -- f"{type(exc).__name__}: {exc}", and the f-strings of the results of the parent
  pub describe : PluginError → String
  pub timed_out : String
  pub exit_code : ℕ → String
  pub launch_error : PluginError → String
  -- the time that a call took, and `0.0`
  pub elapsed : Value J
  pub zero_ms : Value J
  pub truthy_other : J → Bool

module _ {J : Type 0} (p : Platform J) where
  unfoldable pub respond : Option (Value J) → Ran J → Value J → Message J
  unfolding response_to_dict
  respond (some v) ran request_id = response_to_dict (record {
    success = truth true;
    result = v;
    error = null;
    error_type = null;
    execution_time_ms = p.elapsed;
    stdout = text (p.clip ran.printed);
    stderr = text (p.clip ran.complained);
    request_id = request_id;
  })
  respond none ran request_id = response_to_dict (record {
    success = truth false;
    result = null;
    error = text (p.describe ran.failure);
    error_type = text ran.failure.type;
    execution_time_ms = p.elapsed;
    stdout = text (p.clip ran.printed);
    stderr = text (p.clip ran.complained);
    request_id = request_id;
  })

  unfoldable pub execute_plugin : Message J → Message J
  unfolding respond
  execute_plugin request =
      let ran =
        p.call (get "plugin_module" (text "") request) (get "function_name" (text "") request)
          (get "kwargs" empty_dict request) in
      respond ran.outcome ran (get "request_id" (text "") request)

  unfoldable pub request_payload : Bool → ℕ → Bytes → Option (Message J)
  request_payload negative n rest =
      let payload = take n rest in
      if negative || (n == 0) || ltb max_payload n
      then none
      else if length payload == n
      then elim (p.json.loads payload) [
        | malformed ↦ none
        | null_document ↦ none
        | not_a_dict ↦ none
        | object m ↦ some m
      ]
      else none

  -- `_read_request`; `none` is `sys.exit(1)`, and so is an exception, which ends the child.
  unfoldable pub read_request : Bytes → Option (Message J)
  unfolding readline int request_payload
  read_request stdin =
      let (header, rest) = readline stdin in
      elim header [
        | [] ↦ none
        | c ∷ line ↦ elim (int (c ∷ line)) [
          | none ↦ none
          | some (negative, n) ↦ request_payload negative n rest
        ]
      ]

  -- `main`: the exit code of the child and what it wrote.
  unfoldable pub child : Bytes → ℕ × Bytes
  unfolding read_request execute_plugin write_message
  child stdin = elim (read_request stdin) [
    | none ↦ (1, [])
    | some request ↦ (0, write_message p.json (execute_plugin request))
  ]

pub record PluginRunResult (J : Type 0) : Type 0 where
  pub success : Value J
  pub result : Value J
  pub error : Value J
  pub error_type : Value J
  pub stdout_log : Value J
  pub stderr_log : Value J

abbrev attribute_error : PluginError
attribute_error = record { type = "AttributeError"; message = "object has no attribute 'get'" }

-- Whether a line ends with a line feed.
abbrev pub ends_line : Bytes → Bool
ends_line [] = false
ends_line (c ∷ []) = c == 10
ends_line (c ∷ d ∷ s) = ends_line (d ∷ s)

-- A failure before there is an answer: no result and no captured output.
abbrev broken : {J : Type 0} → String → String → String → PluginRunResult J
broken message type stderr = record {
  success = truth false;
  result = null;
  error = text message;
  error_type = text type;
  stdout_log = text "";
  stderr_log = text stderr;
}

-- `stdout[start : start + length]` for a length that may be negative, where the end may then count from
-- the back.
abbrev pub slice : Bytes → ℕ → Bool → ℕ → Bytes
slice s start negative n =
    if negative
    then (if ltb start n then take (length s + start - n - start) (drop start s) else [])
    else take n (drop start s)

module _ {J : Type 0} (p : Platform J) where
  -- Python's truth of a value.
  abbrev pub truthy : Value J → Bool
  truthy null = false
  truthy empty_dict = false
  truthy (truth b) = b
  truthy (text t) = not (str_eq t "")
  truthy (other x) = p.truthy_other x

  unfoldable pub load_slice : Bytes → ℕ → Bool → ℕ → Option (Loaded J)
  load_slice stdout start negative n = elim (p.json.loads (slice stdout start negative n)) [
    | malformed ↦ none
    | null_document ↦ none
    | not_a_dict ↦ some not_a_dict
    | object m ↦ some (object m)
  ]

  -- `none` is `None`; `header` has its line feed, which `int` strips.
  unfoldable pub parse_response : Bytes → Option (Loaded J)
  unfolding readline int load_slice
  parse_response stdout =
      let (header, rest) = readline stdout in
      if ends_line header
      then elim (int header) [
        | none ↦ none
        | some (negative, n) ↦ load_slice stdout (length header) negative n
      ]
      else none

  -- `resp.stderr or _safe_decode(stderr_bytes)`
  abbrev pub or_decoded : Value J → Bytes → Value J
  or_decoded v stderr = if truthy v then v else text (p.safe_decode stderr)

  -- What the parent makes of a child that has exited with 0.
  unfoldable pub finish : Bytes → Bytes → PluginRunResult J
  unfolding parse_response response_from_dict
  finish stdout stderr = elim (parse_response stdout) [
    | none ↦ broken "Failed to parse subprocess response" "ProtocolError" (p.safe_decode stderr)
    | some malformed ↦
        broken "Failed to parse subprocess response" "ProtocolError" (p.safe_decode stderr)
    | some null_document ↦
        broken "Failed to parse subprocess response" "ProtocolError" (p.safe_decode stderr)
    | some not_a_dict ↦ broken (p.launch_error attribute_error) "AttributeError" ""
    | some (object d) ↦
        let resp = response_from_dict p.zero_ms d in
        record {
          success = resp.success;
          result = resp.result;
          error = resp.error;
          error_type = resp.error_type;
          stdout_log = resp.stdout;
          stderr_log = or_decoded resp.stderr stderr;
        }
  ]

  unfoldable pub outcome_of : Process → PluginRunResult J
  unfolding finish
  outcome_of (launch_failed e) = broken (p.launch_error e) e.type ""
  outcome_of (killed stderr) = broken p.timed_out "TimeoutError" (p.safe_decode stderr)
  outcome_of (exited code stdout stderr) =
      if code == 0
      then finish stdout stderr
      else broken (p.exit_code code) "SubprocessError" (p.safe_decode stderr)

  -- The request of a call, with the random id that it gets.
  abbrev pub request_of : String → String → Value J → String → PluginRequest J
  request_of plugin_module function_name kwargs id = record {
    method = text "invoke";
    plugin_module = text plugin_module;
    function_name = text function_name;
    kwargs = kwargs;
    request_id = text id;
  }

  -- `spawn` is what becomes of a process that gets some bytes on its standard input.
  unfoldable pub run_plugin :
      (Bytes → Process) → String → String → Value J → String → PluginRunResult J
  unfolding outcome_of write_message request_to_dict
  run_plugin spawn plugin_module function_name kwargs id = outcome_of (
      spawn
        (write_message p.json (request_to_dict (request_of plugin_module function_name kwargs id))))
