-- ===== src/Prompts/Evolution.antt =====
-- app/prompts/evolution/models.py and manager.py: versions of a prompt, their scores, and which is used.
--
-- Scores are fractions and are computed with exactly; the thresholds 0.7 and 0.9 are 7/10 and 9/10. The
-- file holds what was saved last, and a save succeeds, as `_save` only logs where it does not. Times,
-- `failure_rate` and `is_active`, which nothing reads, are left out. `Mutator` is the LLM with
-- `uuid4`, `str.strip`, `len` and the f-string of the feedback.
pub mod Soundness
mod Averages
mod Tests
use ai_chatbot_platform.Prelude.{
  ℕ, ◌+◌, ◌*◌, Bool, true, false, not, ◌&&◌, ◌||◌, Option, none, some, List, [], ◌∷◌, String,
  str_eq, ltb, leb, ◌==◌, if◌then◌else◌, Dict, lookup, put,
}
use ai_chatbot_platform.Reliability.FailureTracker.{Error}
use ai_chatbot_platform.Reliability.CircuitBreaker.{Outcome, returned, raised}
use ai_chatbot_platform.Reliability.LoadGuard.{Fraction, zero_fraction}
use ai_chatbot_platform.ReasoningGraph.Strategies.{key_error}

abbrev pub ltb_fraction : Fraction → Fraction → Bool
ltb_fraction a b = ltb (a.num * b.den) (b.num * a.den)

-- `a * num / den`
abbrev times : ℕ → ℕ → Fraction → Fraction
times num den a = record { num = a.num * num; den = a.den * den }

pub record PromptPerformance : Type 0 where
  pub avg_score : Fraction
  pub hit_count : ℕ

pub record PromptVersion : Type 0 where
  pub version_id : String
  pub template : String
  pub performance : PromptPerformance
  pub parent_version_id : Option String
  pub mutation_feedback : Option String

pub record PromptEvolution : Type 0 where
  pub prompt_key : String
  pub versions : Dict PromptVersion
  pub active_version_id : String
  pub baseline_version_id : String
  pub candidate_version_id : Option String

pub record PromptEvolutionManager : Type 0 where
  pub evolutions : Dict PromptEvolution
  pub disk : Dict PromptEvolution

pub record Mutator : Type 0 where
  pub ask : PromptVersion → String → Outcome String
  pub new_id : String
  pub strip : String → String
  pub text_length : String → ℕ
  pub low_performance : Fraction → String

abbrev pub new_performance : PromptPerformance
new_performance = record { avg_score = zero_fraction; hit_count = 0 }

-- `self.versions[self.active_version_id]`; `none` is a `KeyError`.
abbrev pub get_active : PromptEvolution → Option PromptVersion
get_active evo = lookup evo.active_version_id evo.versions

unfoldable pub save : PromptEvolutionManager → PromptEvolutionManager
save m = record m { disk = m.evolutions }

abbrev store : String → PromptEvolution → PromptEvolutionManager → PromptEvolutionManager
store key evo m = record m { evolutions = put key evo m.evolutions }

-- The incremental average.
unfoldable pub scored : Fraction → PromptPerformance → PromptPerformance
scored score p = record {
  avg_score = record {
    num = p.avg_score.num * p.hit_count * score.den + score.num * p.avg_score.den;
    den = p.avg_score.den * score.den * (p.hit_count + 1);
  };
  hit_count = p.hit_count + 1;
}

abbrev is_candidate : String → Option String → Bool
is_candidate id none = false
is_candidate id (some c) = str_eq c id

-- `not getattr(evo, "candidate_version_id", None)`
abbrev no_candidate : Option String → Bool
no_candidate none = true
no_candidate (some c) = str_eq c ""

-- The comparison of a candidate with the active version.
abbrev compared : String → PromptPerformance → PromptPerformance → PromptEvolution → PromptEvolution
compared id perf active evo =
    if ltb_fraction active.avg_score perf.avg_score
    then record evo { active_version_id = id; candidate_version_id = none }
    else if ltb_fraction perf.avg_score (times 9 10 active.avg_score)
    then record evo { candidate_version_id = none }
    else evo

abbrev pub is_reviewed : String → PromptPerformance → PromptEvolution → Bool
is_reviewed id perf evo = is_candidate id evo.candidate_version_id && leb 5 perf.hit_count

-- The promotion logic, and whether it saves; `none` is a `KeyError`.
unfoldable pub review :
    String → PromptPerformance → PromptEvolution → Option (PromptEvolution × Bool)
review id perf evo =
    if is_reviewed id perf evo
    then elim (get_active evo) [
      | none ↦ none
      | some active ↦ some (compared id perf active.performance evo, true)
    ]
    else some (evo, false)

-- An exception that a method ends with stands beside the manager.
abbrev pub Managed : Type 0
Managed = PromptEvolutionManager × Option Error

abbrev pub mutated : Mutator → PromptVersion → String → String → PromptEvolution → PromptEvolution
mutated e active feedback template evo = record evo {
  versions =
      put (e.new_id)
        (record {
          version_id = e.new_id;
          template = template;
          performance = new_performance;
          parent_version_id = some active.version_id;
          mutation_feedback = some feedback;
        })
        evo.versions;
  candidate_version_id = some (e.new_id);
}

unfoldable pub evolve_prompt : Mutator → String → String → PromptEvolutionManager → Managed
unfolding save
evolve_prompt e key feedback m = elim (lookup key m.evolutions) [
  | none ↦ (m, none)
  | some evo ↦ elim (get_active evo) [
    | none ↦ (m, some key_error)
    | some active ↦ elim (e.ask active feedback) [
      | raised x ↦ (m, some x)
      | returned answer ↦
          let template = e.strip answer in
          if ltb (e.text_length template) 10
          then (m, none)
          else (save (store key (mutated e active feedback template evo) m), none)
    ]
  ]
]

abbrev pub must_mutate : PromptVersion → PromptEvolution → Bool
must_mutate active evo =
    leb 10 active.performance.hit_count
    && ltb_fraction active.performance.avg_score (record { num = 7; den = 10 })
    && no_candidate evo.candidate_version_id

-- The mutation logic.
unfoldable pub mutate : Mutator → String → PromptEvolution → PromptEvolutionManager → Managed
unfolding evolve_prompt
mutate e key evo m = elim (get_active evo) [
  | none ↦ (m, some key_error)
  | some active ↦
      if must_mutate active evo
      then evolve_prompt e key (e.low_performance active.performance.avg_score) m
      else (m, none)
]

-- What follows the update of the score.
unfoldable pub after_score :
    Mutator
    → String
    → String
    → PromptPerformance
    → PromptEvolution
    → PromptEvolutionManager
    → Managed
unfolding save review mutate
after_score e key id perf evo m = elim (review id perf evo) [
  | none ↦ (m, some key_error)
  | some (evo', saves) ↦ mutate e key evo' (if saves then save (store key evo' m) else m)
]

unfoldable pub record_feedback :
    Mutator → String → String → Fraction → PromptEvolutionManager → Managed
unfolding scored after_score save
record_feedback e key id score m = elim (lookup key m.evolutions) [
  | none ↦ (m, none)
  | some evo ↦ elim (lookup id evo.versions) [
    | none ↦ (m, none)
    | some v ↦
        let perf = scored score v.performance in
        let evo' = record evo {
          versions = put id (record v { performance = perf }) evo.versions;
        } in
        after_score e key id perf evo' (save (store key evo' m))
  ]
]

abbrev pub new_version : String → String → PromptVersion
new_version id template = record {
  version_id = id;
  template = template;
  performance = new_performance;
  parent_version_id = none;
  mutation_feedback = none;
}

unfoldable pub initialize_prompt :
    String → String → String → PromptEvolutionManager → PromptEvolutionManager
unfolding save
initialize_prompt id key template m = elim (lookup key m.evolutions) [
  | some evo ↦ m
  | none ↦ save (
      store key
        (record {
          prompt_key = key;
          versions = (id, new_version id template) ∷ [];
          active_version_id = id;
          baseline_version_id = id;
          candidate_version_id = none;
        })
        m)
]

abbrev with_id : String → Option PromptVersion → Option (String × String)
with_id id none = none
with_id id (some v) = some (v.template, id)

-- The choice between the active version and a candidate.
abbrev pub choose : Bool → Option String → PromptEvolution → Option (String × String)
choose lucky none evo = with_id evo.active_version_id (get_active evo)
choose lucky (some c) evo =
    if not (str_eq c "") && lucky
    then with_id c (lookup c evo.versions)
    else with_id evo.active_version_id (get_active evo)

-- `get_prompt_with_id`; `lucky` is `random.random() < 0.2`, and `none` a `KeyError`.
unfoldable pub get_prompt_with_id :
    Bool → String → PromptEvolutionManager → Option (String × String)
get_prompt_with_id lucky key m = elim (lookup key m.evolutions) [
  | none ↦ some ("", "")
  | some evo ↦ choose lucky evo.candidate_version_id evo
]

-- `get_prompt`
unfoldable pub get_prompt : String → PromptEvolutionManager → Option String
get_prompt key m = elim (lookup key m.evolutions) [
  | none ↦ some ""
  | some evo ↦ elim (get_active evo) [ none ↦ none | some v ↦ some v.template ]
]
