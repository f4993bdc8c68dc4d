-- ===== src/Reliability/ResponseGuard/Issues.antt =====
-- Which issues a validation finds, and when the response is valid.
use ai_chatbot_platform.Prelude.{
  ◌≡◌, true, false, not, ◌&&◌, inl, inr, Option, none, some, List, [], ◌∷◌, String, arith, ltb,
  if◌then◌else◌, Bool, str_eq, refl, sym, ap, ◌∙◌, length, Dict, lookup, Bool-cases, Option-cases,
}
use ai_chatbot_platform.Reliability.FailureTracker.{Text}
use ai_chatbot_platform.Reliability.ResponseGuard.{
  ValidationIssue, ValidationResult, Patterns, Schema, ResponseValidator, warning, add_issue,
  missing_field, wrong_type, json_types, check_length, is_known, unknown_tool_issue, json_issue,
  check_tools, check_required, mistyped, check_types, check_json_schema, check_patterns,
  check_expected, nonempty, new_result, validate,
}
use ai_chatbot_platform.Reliability.ResponseGuard.Reports.{
  length_issues, among, unknown_tool_report, tool_issues, json_error, json_warning, injection_issue,
  cut, required_issues, type_report, type_issues, json_issues, pattern_issues, stripped, reported,
  all_issues,
}
use ai_chatbot_platform.Reliability.ResponseGuard.Results.{
  any_error, any_issue, Extends, Extends-none, Extends-append, add_issue-Extends,
}

check_length-Extends :
    (v : ResponseValidator) (response : Text) (r : ValidationResult)
    → Extends (length_issues v response) r (check_length v response r).1
unfolding check_length
check_length-Extends v response r =
    elim (Bool-cases (ltb v.max_response_length (length response))) [
      | inl yes' ↦ rw (yes', check_length) (add_issue-Extends _ r)
      | inr no' ↦ rw (no', check_length) (Extends-none r)
    ]

is_known-among : (name : String) (ts : List String) → is_known name ts ≡ among name ts
is_known-among name [] = refl
is_known-among name (t ∷ ts) = elim (Bool-cases (str_eq name t)) [
  | inl same ↦ rw same refl
  | inr other ↦ rw other (is_known-among name ts)
]

module _ {J : Type 0} (p : Patterns J) where
  check_tools-Extends :
      (v : ResponseValidator) (names : List String) (text : Text) (r : ValidationResult)
      → Extends (tool_issues v names) r (check_tools p v names text r).1
  unfolding check_tools
  check_tools-Extends v [] text r = Extends-none r
  check_tools-Extends v (name ∷ names) text r = elim (Bool-cases (among name v.known_tools)) [
    | inl yes' ↦
        rw (is_known-among name v.known_tools, yes', check_tools)
          (check_tools-Extends v names text r)
    | inr no' ↦
        rw (is_known-among name v.known_tools, no', check_tools)
          (Extends-append (unknown_tool_issue name ∷ []) (tool_issues v names) r
            (add_issue (unknown_tool_issue name) r) _
            (add_issue-Extends (unknown_tool_issue name) r)
            (check_tools-Extends v names (p.remove_tool name text)
              (add_issue (unknown_tool_issue name) r)))
  ]

  check_required-Extends :
      (names : List String) (parsed : Dict J) (r : ValidationResult)
      → Extends (required_issues p names parsed) r (check_required p names parsed r)
  unfolding check_required
  check_required-Extends [] parsed r = Extends-none r
  check_required-Extends (name ∷ names) parsed r = elim (Option-cases (lookup name parsed)) [
    | inr (x, found) ↦ rw (found, check_required) (check_required-Extends names parsed r)
    | inl missing ↦
        let i = json_error (missing_field name) in
        rw (missing, check_required)
          (Extends-append (i ∷ []) (required_issues p names parsed) r (add_issue i r) _
            (add_issue-Extends i r) (check_required-Extends names parsed (add_issue i r)))
  ]

  -- What the code reports of a field with the type that it has not.
  abbrev report_of : String → Option String → List ValidationIssue
  report_of name none = []
  report_of name (some type') = json_issue warning (wrong_type name type') ∷ []

  report_of_test :
      (name type' : String) (typed fits : Bool)
      → report_of name (if typed && not fits then some type' else none)
        ≡ (if typed then (if fits then [] else json_warning (wrong_type name type') ∷ []) else [])
  report_of_test name type' true true = refl
  report_of_test name type' true false = refl
  report_of_test name type' false fits = refl

  mistyped-type_report :
      (name : String) (expected : Option String) (value : Option J)
      → report_of name (mistyped p expected value) ≡ type_report p name expected value
  mistyped-type_report name none value = refl
  mistyped-type_report name (some type') none = refl
  mistyped-type_report name (some type') (some x) =
      ap (λ b. report_of name (if b && not (p.is_instance type' x) then some type' else none))
        (is_known-among type' json_types)
      ∙ report_of_test name type' (among type' json_types) (p.is_instance type' x)

  check_types-Extends :
      (fields : Dict (Option String)) (parsed : Dict J) (r : ValidationResult)
      → Extends (type_issues p fields parsed) r (check_types p fields parsed r)
  unfolding check_types
  check_types-Extends [] parsed r = Extends-none r
  check_types-Extends ((name, expected) ∷ fields) parsed r =
      rw (sym (mistyped-type_report name expected (lookup name parsed)))
        (elim (Option-cases (mistyped p expected (lookup name parsed))) [
          | inl fine ↦ rw (fine, check_types) (check_types-Extends fields parsed r)
          | inr (type', bad) ↦
              let i = json_issue warning (wrong_type name type') in
              rw (bad, check_types)
                (Extends-append (i ∷ []) (type_issues p fields parsed) r (add_issue i r) _
                  (add_issue-Extends i r) (check_types-Extends fields parsed (add_issue i r)))
        ])

  check_expected-Extends :
      (schema : Option Schema) (response : Text) (r : ValidationResult)
      → Extends (json_issues p response schema) r (check_expected p schema response r)
  unfolding check_json_schema
  check_expected-Extends none response r = Extends-none r
  check_expected-Extends (some schema) response r = elim (Option-cases (p.find_json response)) [
    | inl missing ↦ rw (missing, check_json_schema, json_issues) (add_issue-Extends _ r)
    | inr (found, has) ↦ elim (Option-cases (p.loads found)) [
      | inl bad ↦ rw (has, bad, check_json_schema, json_issues) (add_issue-Extends _ r)
      | inr (parsed, good) ↦
          rw (has, good, check_json_schema, json_issues)
            (Extends-append (required_issues p schema.required parsed)
              (type_issues p schema.properties parsed) r (check_required p schema.required parsed r)
              _ (check_required-Extends schema.required parsed r)
              (check_types-Extends schema.properties parsed
                (check_required p schema.required parsed r)))
    ]
  ]

  check_patterns-Extends :
      (ps : List (Text → Option Text)) (response : Text) (r : ValidationResult)
      → Extends (pattern_issues p ps response) r (check_patterns p ps response r)
  unfolding check_patterns
  check_patterns-Extends [] response r = Extends-none r
  check_patterns-Extends (search' ∷ ps) response r = elim (Option-cases (search' response)) [
    | inl clean ↦ rw (clean, check_patterns) (check_patterns-Extends ps response r)
    | inr (found, hit) ↦
        let i = injection_issue found in
        rw (hit, check_patterns)
          (Extends-append (i ∷ []) (pattern_issues p ps response) r (add_issue i r) _
            (add_issue-Extends i r) (check_patterns-Extends ps response (add_issue i r)))
  ]

  check_length-cut :
      (v : ResponseValidator) (response : Text) (r : ValidationResult)
      → (check_length v response r).0 ≡ cut v response
  unfolding check_length
  check_length-cut v response r = elim (Bool-cases (ltb v.max_response_length (length response))) [
    | inl yes' ↦ rw (yes', check_length) refl
    | inr no' ↦ rw (no', check_length) refl
  ]

  check_tools-stripped :
      (v : ResponseValidator) (names : List String) (text : Text) (r : ValidationResult)
      → (check_tools p v names text r).0 ≡ stripped p v names text
  unfolding check_tools
  check_tools-stripped v [] text r = refl
  check_tools-stripped v (name ∷ names) text r = elim (Bool-cases (among name v.known_tools)) [
    | inl yes' ↦
        rw (is_known-among name v.known_tools, yes', check_tools)
          (check_tools-stripped v names text r)
    | inr no' ↦
        rw (is_known-among name v.known_tools, no', check_tools)
          (check_tools-stripped v names (p.remove_tool name text)
            (add_issue (unknown_tool_report name) r))
  ]

  nonempty-any_issue : (is' : List ValidationIssue) → nonempty p is' ≡ any_issue is'
  nonempty-any_issue [] = refl
  nonempty-any_issue (i ∷ is') = refl

  -- A validation reports exactly these issues: as a warning, that the response is too long; then as an
  -- error each call in the text so cut of a tool that is not known; then, of the text without these
  -- calls and with a schema, as an error that there is no JSON, or malformed JSON, or else each required
  -- field that is missing, and as a warning each field of another of JSON's six types than expected;
  -- then as a warning each pattern of injection that is found in that text. The response is valid exactly
  -- if no issue is an error and, in strict mode, there is none at all. The text that is passed on is the
  -- one without the calls.
  pub validate_exact :
      (v : ResponseValidator) (response : Text) (schema : Option Schema)
      → ((validate p v response schema).issues ≡ all_issues p v response schema)
        × ((validate p v response schema).is_valid ≡ (
            not (any_error (all_issues p v response schema))
            && not (v.strict_mode && any_issue (all_issues p v response schema))))
        × ((validate p v response schema).sanitized_response
            ≡ some (stripped p v (p.find_tools (cut v response)) (cut v response)))
  unfolding validate
  validate_exact v response schema =
      let r0 = new_result p response in
      let text = (check_length v response r0).0 in
      let r1 = (check_length v response r0).1 in
      let r2 = (check_tools p v (p.find_tools text) text r1).1 in
      let fixed = (check_tools p v (p.find_tools text) text r1).0 in
      let r3 = check_expected p schema fixed r2 in
      let was_cut = check_length-cut v response r0 in
      let was_stripped =
        check_tools-stripped v (p.find_tools text) text r1
        ∙ ap (λ t. stripped p v (p.find_tools t) t) was_cut in
      let all =
        ap (λ t. reported p v response schema text t) was_stripped
        ∙ ap
            (λ t.
              reported p v response schema t
                (stripped p v (p.find_tools (cut v response)) (cut v response)))
            was_cut in
      let e = Extends-append _ _ r0 r1 _ (check_length-Extends v response r0) (
        Extends-append _ _ r1 r2 _ (check_tools-Extends v (p.find_tools text) text r1) (
          Extends-append _ _ r2 r3 _ (check_expected-Extends schema fixed r2)
            (check_patterns-Extends p.injection_patterns fixed r3))) in
      let issues = e.issues ∙ all in
      let valid = e.valid ∙ ap (λ is'. not (any_error is')) all in
      (
        issues,
        rw issues (ground (arith, valid, nonempty-any_issue (all_issues p v response schema))),
        ap (λ t. some t) was_stripped,
      )
