-- ===== src/Reliability/ResponseGuard/Results.antt =====
-- A result that grows by issues.
use ai_chatbot_platform.Prelude.{
  ◌≡◌, refl, sym, ap, ◌∙◌, Bool, true, false, not, ◌&&◌, ◌||◌, List, [], ◌∷◌, ◌++◌, arith,
}
use ai_chatbot_platform.Reliability.ResponseGuard.{
  Severity, warning, error, ValidationIssue, ValidationResult, is_error, add_issue,
}

-- Of the two severities, one makes a response invalid.
abbrev invalidates : Severity → Bool
invalidates warning = false
invalidates error = true

is_error_lem : (s : Severity) → is_error s ≡ invalidates s
is_error_lem warning = refl
is_error_lem error = refl

abbrev pub any_error : List ValidationIssue → Bool
any_error [] = false
any_error (i ∷ is') = invalidates i.severity || any_error is'

abbrev pub any_issue : List ValidationIssue → Bool
any_issue [] = false
any_issue (i ∷ is') = true

-- `r'` is `r` with more issues.
pub record Extends (is' : List ValidationIssue) (r r' : ValidationResult) : Type 0 where
  pub issues : r'.issues ≡ r.issues ++ is'
  pub valid : r'.is_valid ≡ (r.is_valid && not (any_error is'))

append_none : (is' : List ValidationIssue) → is' ++ [] ≡ is'
append_none [] = refl
append_none (i ∷ is') = ap (λ xs. i ∷ xs) (append_none is')

append_twice : (is' js ks : List ValidationIssue) → (is' ++ js) ++ ks ≡ is' ++ (js ++ ks)
append_twice [] js ks = refl
append_twice (i ∷ is') js ks = ap (λ xs. i ∷ xs) (append_twice is' js ks)

any_error-append :
    (is' js : List ValidationIssue) → any_error (is' ++ js) ≡ (any_error is' || any_error js)
any_error-append [] js = refl
any_error-append (i ∷ is') js = ground (arith, any_error-append is' js)

pub Extends-none : (r : ValidationResult) → Extends [] r r
Extends-none r = record { issues = sym (append_none r.issues); valid = ground arith }

pub add_issue-Extends :
    (i : ValidationIssue) (r : ValidationResult) → Extends (i ∷ []) r (add_issue i r)
unfolding add_issue
add_issue-Extends i r = record { issues = refl; valid = ground (arith, is_error_lem i.severity) }

pub Extends-append :
    (is' js : List ValidationIssue) (r r' r'' : ValidationResult)
    → Extends is' r r'
    → Extends js r' r''
    → Extends (is' ++ js) r r''
Extends-append is' js r r' r'' a b = record {
  issues = b.issues ∙ ap (λ xs. xs ++ js) a.issues ∙ append_twice r.issues is' js;
  valid = ground (arith, a.valid, b.valid, any_error-append is' js);
}
