-- ===== src/Reliability/ResponseGuard/Tests.antt =====
-- A response that is too long and calls a tool that does not exist.
use ai_chatbot_platform.Prelude.{
  ◌≡◌, refl, ℕ, ◌+◌, ◌*◌, ◌≤◌, ◌<◌, false, not, ◌&&◌, ◌⊎◌, none, some, [], ◌∷◌, ◌++◌, length, take,
  lookup,
}
use ai_chatbot_platform.Reliability.FailureTracker.{Text}
use ai_chatbot_platform.Reliability.ResponseGuard.{
  Patterns, Schema, ResponseValidator, notice, new_result, add_issue, check_length, check_tools,
  check_json_schema, check_required, check_types, check_patterns, validate,
}
use ai_chatbot_platform.Reliability.ResponseGuard.Results.{any_error, any_issue}
use ai_chatbot_platform.Reliability.ResponseGuard.Issues.{validate_exact}
use ai_chatbot_platform.Reliability.ResponseGuard.Reports.{all_issues, stripped, cut}
use ai_chatbot_platform.Reliability.ResponseGuard.Length.{check_length_bounds}

abbrev patterns : Patterns ℕ
patterns = record {
  find_tools = λ text. "fly" ∷ [];
  remove_tool = λ name text. text;
  find_json = λ text. some text;
  loads = λ text. some (("answer", 1) ∷ []);
  is_instance = λ expected value. false;
  injection_patterns = (λ text. none) ∷ [];
}

abbrev validator : ResponseValidator
validator = record { known_tools = "search" ∷ []; max_response_length = 5; strict_mode = false }

abbrev schema : Schema
schema = record { required = "source" ∷ []; properties = ("answer", some "string") ∷ [] }

-- `abcd.ef`
abbrev response : Text
response = 97 ∷ 98 ∷ 99 ∷ 100 ∷ 46 ∷ 101 ∷ 102 ∷ []

finds_four : length (validate patterns validator response (some schema)).issues ≡ 4
unfolding validate check_length check_tools check_json_schema check_required check_types
    check_patterns add_issue lookup
finds_four = refl

validate_exact_example :
    ((validate patterns validator response (some schema)).issues
      ≡ all_issues patterns validator response (some schema))
    × ((validate patterns validator response (some schema)).is_valid ≡ (
        not (any_error (all_issues patterns validator response (some schema)))
        && not (
            validator.strict_mode
            && any_issue (all_issues patterns validator response (some schema)))))
    × ((validate patterns validator response (some schema)).sanitized_response
        ≡ some (stripped patterns validator ("fly" ∷ []) (cut validator response)))
validate_exact_example = validate_exact patterns validator response (some schema)

check_length_bounds_example :
    let r = new_result patterns response in
    ((length response ≤ 5) × ((check_length validator response r).0 ≡ response))
    ⊎ ((5 < length response)
        × ((k : ℕ) × ((check_length validator response r).0 ≡ take k response ++ notice)
            × (k ≤ 5)
            × (5 * 8 ≤ k * 10)
            × (length (check_length validator response r).0 ≡ k + 43)))
check_length_bounds_example = check_length_bounds validator response (new_result patterns response)
