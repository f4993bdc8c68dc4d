-- ===== src/Plugins/Protocol.antt =====
-- app/plugins/plugin_protocol.py: messages with their length in front.
--
-- A stream is the bytes that are left to read; a blocking `read` has them all. `json.dumps` and
-- `json.loads` are parameters. Of JSON's values the code looks at `null`, truth values and texts;
-- the others are of a type of their own.
pub mod Framing
mod Truncation
mod Tests
use ai_chatbot_platform.Prelude.{
  ℕ, ◌*◌, Bool, true, false, ◌||◌, Option, none, some, List, [], ◌∷◌, ◌++◌, String, ltb, ◌==◌,
  length, take, drop, if◌then◌else◌, Dict, lookup,
}
use ai_chatbot_platform.Plugins.PyInt.{Bytes, str, int}

pub data Value (J : Type 0) : Type 0 where
  null empty_dict : Value J
  truth : Bool → Value J
  text : String → Value J
  other : J → Value J

abbrev pub Message : Type 0 → Type 0
Message J = Dict (Value J)

-- What `json.loads` gives: an exception, `None`, another value that is no `dict`, or a message.
pub data Loaded (J : Type 0) : Type 0 where
  malformed null_document not_a_dict : Loaded J
  object : Message J → Loaded J

pub record Json (J : Type 0) : Type 0 where
  pub dumps : Message J → Bytes
  pub loads : Bytes → Loaded J

-- 10 MB
abbrev pub max_payload : ℕ
max_payload = 10 * 1024 * 1024

unfoldable pub write_message : {J : Type 0} → Json J → Message J → Bytes
write_message json msg = let payload = json.dumps msg in str (length payload) ++ (10 ∷ payload)

-- `stream.readline()`, and what is left of the stream.
unfoldable pub readline : Bytes → Bytes × Bytes
readline [] = ([], [])
readline (c ∷ s) =
    let (line, rest) = readline s in if c == 10 then (c ∷ [], s) else (c ∷ line, rest)

-- The part of `read_message` behind the parsed length.
unfoldable pub read_payload : {J : Type 0} → Json J → Bool → ℕ → Bytes → Option (Loaded J) × Bytes
read_payload json negative n rest =
    let payload = take n rest in
    if negative || (n == 0) || ltb max_payload n
    then (none, rest)
    else if length payload == n
    then (some (json.loads payload), drop n rest)
    else (none, drop n rest)

-- `none` is `None`; an exception of `json.loads` is passed on as `malformed`.
unfoldable pub read_message : {J : Type 0} → Json J → Bytes → Option (Loaded J) × Bytes
unfolding readline read_payload int
read_message json stream =
    let (header, rest) = readline stream in
    elim header [
      | [] ↦ (none, rest)
      | c ∷ line ↦ elim (int (c ∷ line)) [
        | none ↦ (none, rest)
        | some (negative, n) ↦ read_payload json negative n rest
      ]
    ]

pub record PluginRequest (J : Type 0) : Type 0 where
  pub method : Value J
  pub plugin_module : Value J
  pub function_name : Value J
  pub kwargs : Value J
  pub request_id : Value J

pub record PluginResponse (J : Type 0) : Type 0 where
  pub success : Value J
  pub result : Value J
  pub error : Value J
  pub error_type : Value J
  pub execution_time_ms : Value J
  pub stdout : Value J
  pub stderr : Value J
  pub request_id : Value J

-- `d.get(key, default)`
abbrev or_default : {J : Type 0} → Value J → Option (Value J) → Value J
or_default v none = v
or_default v (some w) = w

abbrev pub get : {J : Type 0} → String → Value J → Message J → Value J
get key default d = or_default default (lookup key d)

unfoldable pub request_to_dict : {J : Type 0} → PluginRequest J → Message J
request_to_dict r =
    ("method", r.method)
    ∷ ("plugin_module", r.plugin_module)
    ∷ ("function_name", r.function_name)
    ∷ ("kwargs", r.kwargs)
    ∷ ("request_id", r.request_id)
    ∷ []

unfoldable pub request_from_dict : {J : Type 0} → Message J → PluginRequest J
request_from_dict d = record {
  method = get "method" (text "invoke") d;
  plugin_module = get "plugin_module" (text "") d;
  function_name = get "function_name" (text "") d;
  kwargs = get "kwargs" empty_dict d;
  request_id = get "request_id" (text "") d;
}

unfoldable pub response_to_dict : {J : Type 0} → PluginResponse J → Message J
response_to_dict r =
    ("success", r.success)
    ∷ ("result", r.result)
    ∷ ("error", r.error)
    ∷ ("error_type", r.error_type)
    ∷ ("execution_time_ms", r.execution_time_ms)
    ∷ ("stdout", r.stdout)
    ∷ ("stderr", r.stderr)
    ∷ ("request_id", r.request_id)
    ∷ []

-- The default of `execution_time_ms`, 0.0, is a parameter.
unfoldable pub response_from_dict : {J : Type 0} → Value J → Message J → PluginResponse J
response_from_dict zero_ms d = record {
  success = get "success" (truth false) d;
  result = get "result" null d;
  error = get "error" null d;
  error_type = get "error_type" null d;
  execution_time_ms = get "execution_time_ms" zero_ms d;
  stdout = get "stdout" (text "") d;
  stderr = get "stderr" (text "") d;
  request_id = get "request_id" (text "") d;
}
