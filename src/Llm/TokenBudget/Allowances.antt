-- ===== src/Llm/TokenBudget/Allowances.antt =====
-- How many tokens the texts of a context may have.
use ai_chatbot_platform.Prelude.{
  ◌≡◌, refl, ℕ, ◌+◌, ◌-◌, ◌*◌, ◌/◌, ◌≤◌, ◌<◌, ◌||◌, ◌⊎◌, inl, inr, List, String, str_eq, arith, leb,
  length, take, Bool-cases, length-take,
}
use ai_chatbot_platform.Llm.TokenBudget.{
  AdaptiveTokenBudgeter, count_tokens, shares, calculate_budget, fit_to_budget, Texts, Context,
  ruled, cut_context,
}

-- A text of at most `n` tokens, or what `n` tokens or fewer are decoded to.
abbrev pub FitsIn : AdaptiveTokenBudgeter → ℕ → String → Type 0
FitsIn b n text =
    (text ≡ "")
    ⊎ (length (b.encode text) ≤ n)
    ⊎ ((tokens : List ℕ) × (length tokens ≤ n) × (text ≡ b.decode tokens))

fit_to_budget-FitsIn :
    (b : AdaptiveTokenBudgeter) (text : String) (n : ℕ) → FitsIn b n (fit_to_budget b text n)
unfolding fit_to_budget
fit_to_budget-FitsIn b text n = elim (Bool-cases (str_eq text "" || leb n 0)) [
  | inl empty ↦ rw (empty, fit_to_budget) (inl refl)
  | inr full ↦ elim (Bool-cases (leb (length (b.encode text)) n)) [
    | inl fits ↦ rw (full, fits, fit_to_budget) (inr (inl (ground (arith, fits))))
    | inr long ↦
        rw (full, long, fit_to_budget)
          (inr (inr (take n (b.encode text), omega (arith, length-take n (b.encode text)), refl)))
  ]
]

shares_exact :
    (system user remaining : ℕ)
    → ((shares system user remaining).memory + (shares system user remaining).rag ≡ remaining)
      × ((shares system user remaining).rag * 10 ≤ remaining * 6)
      × (remaining * 6 < (shares system user remaining).rag * 10 + 10)
shares_exact system user remaining = ground arith

-- Where the system prompt and the question leave room: the budgets of the memory and of the documents
-- add up to just the rest of the limit behind a reserve of 100, and the documents get 60 percent of it,
-- rounded down. Each of the four texts of the context fits in its allowance; but the web and the
-- long-term texts are allowed half of the documents' budget each on top, so if the rest is 4 or more, the
-- four allowances are together more than the rest.
pub cut_context_allowances :
    (b : AdaptiveTokenBudgeter) (t : Texts) (c : Context)
    → count_tokens b (ruled t c) + count_tokens b c.question + 104 ≤ b.max_tokens
    → let budget = calculate_budget b (ruled t c) c.question in
      let rest = b.max_tokens - (count_tokens b (ruled t c) + count_tokens b c.question + 100) in
      (budget.memory + budget.rag ≡ rest)
      × (budget.rag * 10 ≤ rest * 6)
      × (rest * 6 < budget.rag * 10 + 10)
      × FitsIn b budget.memory (cut_context b t c).memory
      × FitsIn b budget.rag (cut_context b t c).rag
      × FitsIn b (budget.rag / 2) (cut_context b t c).web
      × FitsIn b (budget.rag / 2) (cut_context b t c).long_term
      × (rest < budget.memory + budget.rag + budget.rag / 2 + budget.rag / 2)
unfolding calculate_budget cut_context
cut_context_allowances b t c h =
    let system = count_tokens b (ruled t c) in
    let user = count_tokens b c.question in
    let rest = b.max_tokens - (system + user + 100) in
    let (sum, low, high) = shares_exact system user rest in
    let q = shares system user rest in
    (
      sum,
      low,
      high,
      fit_to_budget-FitsIn b c.memory_block q.memory,
      fit_to_budget-FitsIn b c.rag_context q.rag,
      fit_to_budget-FitsIn b c.web_context (q.rag / 2),
      fit_to_budget-FitsIn b c.memory_vector_context (q.rag / 2),
      omega (arith, sum, high, low, h),
    )
