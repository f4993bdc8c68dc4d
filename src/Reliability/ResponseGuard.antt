-- ===== src/Reliability/ResponseGuard.antt =====
-- app/reliability/response_guard.py: the checks of a model's response.
--
-- A text is its code points. The regular expressions, `json.loads` and `isinstance` are `Patterns`; a
-- message is what it is formatted from. The limit times 0.8 is compared exactly.
mod Results
mod Reports
mod Issues
mod Length
mod Tests
use ai_chatbot_platform.Prelude.{
  ℕ, zero, suc, ◌+◌, ◌*◌, Bool, true, false, not, ◌&&◌, ◌||◌, Option, none, some, List, [], ◌∷◌,
  ◌++◌, String, str_eq, ltb, ◌==◌, if◌then◌else◌, length, take, Dict, lookup,
}
use ai_chatbot_platform.Reliability.FailureTracker.{Text}

pub data Category : Type 0 where
  hallucinated_tool invalid_json injection too_long : Category

pub data Severity : Type 0 where
  warning error : Severity

-- What the message of an issue is about.
pub data Message : Type 0 where
  truncated : ℕ → ℕ → Message
  unknown_tool missing_field : String → Message
  no_json malformed_json : Message
  wrong_type : String → String → Message
  matched : Text → Message

pub record ValidationIssue : Type 0 where
  pub category : Category
  pub severity : Severity
  pub message : Message
  pub auto_fixed : Bool

pub record ValidationResult : Type 0 where
  pub is_valid : Bool
  pub issues : List ValidationIssue
  pub sanitized_response : Option Text
  pub original_response : Text

-- `J` is a value of JSON.
pub record Patterns (J : Type 0) : Type 0 where
  -- the names that the pattern of tool calls finds, and the replacement of a tool's calls
  pub find_tools : Text → List String
  pub remove_tool : String → Text → Text
  -- the search for an object, and what it parses to
  pub find_json : Text → Option Text
  pub loads : Text → Option (Dict J)
  pub is_instance : String → J → Bool
  -- `_INJECTION_PATTERNS`
  pub injection_patterns : List (Text → Option Text)

-- `required`, and each property's `type`
pub record Schema : Type 0 where
  pub required : List String
  pub properties : Dict (Option String)

pub record ResponseValidator : Type 0 where
  pub known_tools : List String
  pub max_response_length : ℕ
  pub strict_mode : Bool

abbrev pub is_error : Severity → Bool
is_error warning = false
is_error error = true

unfoldable pub add_issue : ValidationIssue → ValidationResult → ValidationResult
add_issue i r = record r {
  issues = r.issues ++ i ∷ [];
  is_valid = if is_error i.severity then false else r.is_valid;
}

abbrev pub notice : Text
notice =
    10 ∷ 10 ∷ 91 ∷ 82 ∷ 101 ∷ 115 ∷ 112 ∷ 111 ∷ 110 ∷ 115 ∷ 101 ∷ 32 ∷ 116 ∷ 114 ∷ 117 ∷ 110 ∷ 99
    ∷ 97 ∷ 116 ∷ 101 ∷ 100 ∷ 32 ∷ 100 ∷ 117 ∷ 101 ∷ 32 ∷ 116 ∷ 111 ∷ 32 ∷ 108 ∷ 101 ∷ 110 ∷ 103
    ∷ 116 ∷ 104 ∷ 32 ∷ 108 ∷ 105 ∷ 109 ∷ 105 ∷ 116 ∷ 115 ∷ 93 ∷ []

abbrev after_rest : Bool → Option ℕ → Option ℕ
after_rest here' (some k) = some (suc k)
after_rest true none = some 0
after_rest false none = none

-- `rfind(".")`
abbrev pub rfind_period : Text → Option ℕ
rfind_period [] = none
rfind_period (c ∷ cs) = after_rest (c == 46) (rfind_period cs)

-- The cut at the end of a sentence, where that is in the last fifth.
abbrev pub cut_at : ℕ → Option ℕ → Text → Text
cut_at limit none text = text
cut_at limit (some k) text = if ltb (limit * 8) (k * 10) then take (k + 1) text else text

abbrev pub shortened : ℕ → Text → Text
shortened limit response =
    let truncated' = take limit response in cut_at limit (rfind_period truncated') truncated'

unfoldable pub check_length : ResponseValidator → Text → ValidationResult → Text × ValidationResult
unfolding add_issue
check_length v response r =
    let truncated' = shortened v.max_response_length response in
    if ltb v.max_response_length (length response)
    then (
      truncated' ++ notice,
      add_issue
          (record {
            category = too_long;
            severity = warning;
            message = truncated (length response) (length truncated');
            auto_fixed = true;
          })
          r,
    )
    else (response, r)

abbrev pub is_known : String → List String → Bool
is_known name [] = false
is_known name (t ∷ ts) = str_eq name t || is_known name ts

abbrev pub unknown_tool_issue : String → ValidationIssue
unknown_tool_issue name = record {
  category = hallucinated_tool;
  severity = error;
  message = unknown_tool name;
  auto_fixed = true;
}

abbrev pub json_issue : Severity → Message → ValidationIssue
json_issue severity message = record {
  category = invalid_json;
  severity = severity;
  message = message;
  auto_fixed = false;
}

-- `type_map`
abbrev pub json_types : List String
json_types = "string" ∷ "integer" ∷ "number" ∷ "boolean" ∷ "array" ∷ "object" ∷ []

module _ {J : Type 0} (p : Patterns J) where
  -- The loop of `_check_hallucinated_tools` over the matches.
  unfoldable pub check_tools :
      ResponseValidator → List String → Text → ValidationResult → Text × ValidationResult
  unfolding add_issue
  check_tools v [] sanitized' r = (sanitized', r)
  check_tools v (name ∷ names) sanitized' r =
      let known' = is_known name v.known_tools in
      check_tools v names (if known' then sanitized' else p.remove_tool name sanitized')
        (if known' then r else add_issue (unknown_tool_issue name) r)

  unfoldable pub check_required : List String → Dict J → ValidationResult → ValidationResult
  unfolding add_issue
  check_required [] parsed r = r
  check_required (name ∷ names) parsed r = check_required names parsed (elim (lookup name parsed) [
    | some _ ↦ r
    | none ↦ add_issue (json_issue error (missing_field name)) r
  ])

  -- Whether the value of a field has the wrong type, and which is expected.
  abbrev pub mistyped : Option String → Option J → Option String
  mistyped none value = none
  mistyped (some expected) none = none
  mistyped (some expected) (some value) =
      if is_known expected json_types && not (p.is_instance expected value)
      then some expected
      else none

  unfoldable pub check_types : Dict (Option String) → Dict J → ValidationResult → ValidationResult
  unfolding add_issue
  check_types [] parsed r = r
  check_types ((name, expected) ∷ fields) parsed r =
      check_types fields parsed (elim (mistyped expected (lookup name parsed)) [
        | none ↦ r
        | some type' ↦ add_issue (json_issue warning (wrong_type name type')) r
      ])

  -- `_check_json_schema`
  unfoldable pub check_json_schema : Text → Schema → ValidationResult → ValidationResult
  unfolding add_issue check_required check_types
  check_json_schema response schema r = elim (p.find_json response) [
    | none ↦ add_issue (json_issue error no_json) r
    | some found ↦ elim (p.loads found) [
      | none ↦ add_issue (json_issue error malformed_json) r
      | some parsed ↦ check_types schema.properties parsed (check_required schema.required parsed r)
    ]
  ]

  -- The loop of `_check_prompt_injection`.
  unfoldable pub check_patterns :
      List (Text → Option Text) → Text → ValidationResult → ValidationResult
  unfolding add_issue
  check_patterns [] response r = r
  check_patterns (search' ∷ ps) response r = check_patterns ps response (elim (search' response) [
    | none ↦ r
    | some found ↦
        add_issue
          (record {
            category = injection;
            severity = warning;
            message = matched (take 80 found);
            auto_fixed = false;
          })
          r
  ])

  abbrev pub check_expected : Option Schema → Text → ValidationResult → ValidationResult
  check_expected none response r = r
  check_expected (some schema) response r = check_json_schema response schema r

  abbrev pub nonempty : List ValidationIssue → Bool
  nonempty [] = false
  nonempty (i ∷ is') = true

  abbrev pub new_result : Text → ValidationResult
  new_result response = record {
    is_valid = true;
    issues = [];
    sanitized_response = none;
    original_response = response;
  }

  unfoldable pub validate : ResponseValidator → Text → Option Schema → ValidationResult
  unfolding check_length check_tools check_json_schema check_patterns
  validate v response schema =
      let (shortened', r) = check_length v response (new_result response) in
      let (sanitized', r') = check_tools v (p.find_tools shortened') shortened' r in
      let r'' =
        check_patterns p.injection_patterns sanitized' (check_expected schema sanitized' r') in
      record r'' {
        is_valid = if v.strict_mode && nonempty r''.issues then false else r''.is_valid;
        sanitized_response = some sanitized';
      }
