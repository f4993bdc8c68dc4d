-- ===== src/Reliability/ResponseGuard/Reports.antt =====
-- What a validation is to report, and the text that it is to leave, said without the code's checks.
use ai_chatbot_platform.Prelude.{
  true, false, Option, none, some, List, [], ◌∷◌, ◌++◌, String, ltb, if◌then◌else◌, Bool, str_eq,
  length, take, Dict, lookup,
}
use ai_chatbot_platform.Reliability.FailureTracker.{Text}
use ai_chatbot_platform.Reliability.ResponseGuard.{
  ValidationIssue, Patterns, Schema, ResponseValidator, warning, error, too_long, injection,
  truncated, missing_field, no_json, malformed_json, wrong_type, matched, hallucinated_tool,
  unknown_tool, invalid_json, Message, shortened, notice,
}

abbrev pub length_issues : ResponseValidator → Text → List ValidationIssue
length_issues v response =
    if ltb v.max_response_length (length response)
    then record {
      category = too_long;
      severity = warning;
      message = truncated (length response) (length (shortened v.max_response_length response));
      auto_fixed = true;
    }
      ∷ []
    else []

-- Whether a name is one of those.
abbrev pub among : String → List String → Bool
among name [] = false
among name (t ∷ ts) = if str_eq name t then true else among name ts

-- A call of a tool that is not known is an error, which the removal of the call fixes.
abbrev pub unknown_tool_report : String → ValidationIssue
unknown_tool_report name = record {
  category = hallucinated_tool;
  severity = error;
  message = unknown_tool name;
  auto_fixed = true;
}

-- One for each call of a tool that is not known.
abbrev pub tool_issues : ResponseValidator → List String → List ValidationIssue
tool_issues v [] = []
tool_issues v (name ∷ names) =
    (if among name v.known_tools then [] else unknown_tool_report name ∷ []) ++ tool_issues v names

-- No JSON, malformed JSON and a missing field are errors, a field of another type is a warning, and
-- none of them is fixed.
abbrev pub json_error : Message → ValidationIssue
json_error m = record { category = invalid_json; severity = error; message = m; auto_fixed = false }

abbrev pub json_warning : Message → ValidationIssue
json_warning m = record {
  category = invalid_json;
  severity = warning;
  message = m;
  auto_fixed = false;
}

abbrev pub injection_issue : Text → ValidationIssue
injection_issue found = record {
  category = injection;
  severity = warning;
  message = matched (take 80 found);
  auto_fixed = false;
}

-- A text that is too long is cut and gets the notice.
abbrev pub cut : ResponseValidator → Text → Text
cut v response =
    if ltb v.max_response_length (length response)
    then shortened v.max_response_length response ++ notice
    else response

module _ {J : Type 0} (p : Patterns J) where
  abbrev pub required_issues : List String → Dict J → List ValidationIssue
  required_issues [] parsed = []
  required_issues (name ∷ names) parsed =
      (elim (lookup name parsed) [ some _ ↦ [] | none ↦ json_error (missing_field name) ∷ [] ])
      ++ required_issues names parsed

  -- A field with a value and an expected type is reported if that is one of the six of JSON and the
  -- value is no instance of it.
  abbrev pub type_report : String → Option String → Option J → List ValidationIssue
  type_report name (some type') (some x) =
      if among type' ("string" ∷ "integer" ∷ "number" ∷ "boolean" ∷ "array" ∷ "object" ∷ [])
      then (if p.is_instance type' x then [] else json_warning (wrong_type name type') ∷ [])
      else []
  type_report name none x = []
  type_report name (some type') none = []

  abbrev pub type_issues : Dict (Option String) → Dict J → List ValidationIssue
  type_issues [] parsed = []
  type_issues ((name, expected) ∷ fields) parsed =
      type_report name expected (lookup name parsed) ++ type_issues fields parsed

  abbrev pub json_issues : Text → Option Schema → List ValidationIssue
  json_issues response none = []
  json_issues response (some schema) = elim (p.find_json response) [
    | none ↦ json_error no_json ∷ []
    | some found ↦ elim (p.loads found) [
      | none ↦ json_error malformed_json ∷ []
      | some parsed ↦ required_issues schema.required parsed ++ type_issues schema.properties parsed
    ]
  ]

  abbrev pub pattern_issues : List (Text → Option Text) → Text → List ValidationIssue
  pattern_issues [] response = []
  pattern_issues (search' ∷ ps) response =
      (elim (search' response) [ none ↦ [] | some found ↦ injection_issue found ∷ [] ])
      ++ pattern_issues ps response

  -- The calls of unknown tools are removed, one after the other.
  abbrev pub stripped : ResponseValidator → List String → Text → Text
  stripped v [] text = text
  stripped v (name ∷ names) text =
      stripped v names (if among name v.known_tools then text else p.remove_tool name text)

  -- The issues of a response, of the text that is left of it by the cut, and of that without the calls.
  abbrev pub reported :
      ResponseValidator → Text → Option Schema → Text → Text → List ValidationIssue
  reported v response schema text repaired =
      length_issues v response
      ++ (tool_issues v (p.find_tools text)
          ++ (json_issues repaired schema ++ pattern_issues p.injection_patterns repaired))

  -- All issues of a response, in order.
  abbrev pub all_issues : ResponseValidator → Text → Option Schema → List ValidationIssue
  all_issues v response schema =
      let text = cut v response in
      reported v response schema text (stripped v (p.find_tools text) text)
