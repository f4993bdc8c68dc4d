-- ===== src/Prompts/Evolution/Soundness.antt =====
-- The ids that an evolution holds are those of its versions.
use ai_chatbot_platform.Prelude.{
  ◌≡◌, refl, ◌∙◌, Bool, true, false, not, ◌&&◌, ◌⊎◌, inl, inr, Option, none, some, [], ◌∷◌, String,
  str_eq, eq_iff, arith, Dict, lookup, lookup-put, lookup-put_self, Bool-cases, Option-cases,
}
use ai_chatbot_platform.Reliability.FailureTracker.{Error}
use ai_chatbot_platform.Reliability.CircuitBreaker.{raised}
use ai_chatbot_platform.Reliability.LoadGuard.{Fraction}
use ai_chatbot_platform.Prompts.Evolution.{
  PromptVersion, PromptEvolution, PromptEvolutionManager, Mutator, get_active, save, evolve_prompt,
  record_feedback, initialize_prompt, get_prompt_with_id, choose, new_version, store,
}

abbrev pub known : String → Dict PromptVersion → Bool
known id d = elim (lookup id d) [ none ↦ false | some v ↦ true ]

abbrev candidate_known : Option String → Dict PromptVersion → Bool
candidate_known none d = true
candidate_known (some c) d = known c d

abbrev pub is_sound : PromptEvolution → Bool
is_sound evo =
    known evo.active_version_id evo.versions
    && known evo.baseline_version_id evo.versions
    && candidate_known evo.candidate_version_id evo.versions

abbrev pub AllSound : PromptEvolutionManager → Type 0
AllSound m =
    (k : String) (evo : PromptEvolution) → lookup k m.evolutions ≡ some evo → is_sound evo ≡ true

-- The evolutions are sound, and the file holds them.
pub record IsKept (m : PromptEvolutionManager) : Type 0 where
  pub sound : AllSound m
  pub saved : m.disk ≡ m.evolutions

stored-IsKept :
    (k : String) (evo : PromptEvolution) (m : PromptEvolutionManager)
    → IsKept m
    → is_sound evo ≡ true
    → IsKept (save (store k evo m))
unfolding save
stored-IsKept k evo m kept h = record {
  sound = λ j other e. ground (arith, lookup-put k j evo m.evolutions, kept.sound j other);
  saved = refl;
}

active_found :
    (evo : PromptEvolution) → is_sound evo ≡ true → (v : PromptVersion) × (get_active evo ≡ some v)
active_found evo h = elim (Option-cases (get_active evo)) [
  | inl e ↦ absurd (ground (arith, e, h))
  | inr found ↦ found
]

-- How a method may end: with no exception, or with the one of the LLM.
abbrev pub Ends : Mutator → Option Error → Type 0
Ends e x =
    (x ≡ none)
    ⊎ ((v : PromptVersion) × (feedback : String) × (y : Error) × (e.ask v feedback ≡ raised y)
        × (x ≡ some y))

abbrev pub Keeps : Mutator → PromptEvolutionManager × Option Error → Type 0
Keeps e r = IsKept r.0 × Ends e r.1

lookup_one : (k : String) (v : PromptVersion) → lookup k ((k, v) ∷ []) ≡ some v
unfolding lookup
lookup_one k v = ground (arith, eq_iff k k)

new_sound :
    (key id template : String)
    → is_sound (record {
      prompt_key = key;
      versions = (id, new_version id template) ∷ [];
      active_version_id = id;
      baseline_version_id = id;
      candidate_version_id = none;
    })
      ≡ true
new_sound key id template = ground (arith, lookup_one id (new_version id template))

pub initialize_prompt-IsKept :
    (id key template : String) (m : PromptEvolutionManager)
    → IsKept m
    → IsKept (initialize_prompt id key template m)
unfolding initialize_prompt
initialize_prompt-IsKept id key template m kept = elim (Option-cases (lookup key m.evolutions)) [
  | inl missing ↦
      rw (missing, initialize_prompt) (stored-IsKept key _ m kept (new_sound key id template))
  | inr (evo, found) ↦ rw (found, initialize_prompt) kept
]

pub initialize_prompt_known :
    (id key template : String) (m : PromptEvolutionManager)
    → (evo : PromptEvolution) × (lookup key (initialize_prompt id key template m).evolutions
        ≡ some evo)
unfolding initialize_prompt save
initialize_prompt_known id key template m = elim (Option-cases (lookup key m.evolutions)) [
  | inl missing ↦ rw (missing, initialize_prompt) (_, lookup-put_self key _ m.evolutions)
  | inr (evo, found) ↦ rw (found, initialize_prompt) (evo, found)
]

-- The calls of the manager, in any order.
pub data Step : PromptEvolutionManager → PromptEvolutionManager → Type 0 where
  initializes :
      {m : PromptEvolutionManager} (id key template : String)
      → Step m (initialize_prompt id key template m)
  records :
      {m : PromptEvolutionManager} (e : Mutator) (key id : String) (score : Fraction)
      → Step m (record_feedback e key id score m).0
  evolves :
      {m : PromptEvolutionManager} (e : Mutator) (key feedback : String)
      → Step m (evolve_prompt e key feedback m).0

pub data Reach : PromptEvolutionManager → PromptEvolutionManager → Type 0 where
  here : {m : PromptEvolutionManager} → Reach m m
  next : {m m' m'' : PromptEvolutionManager} → Reach m m' → Step m' m'' → Reach m m''

-- What a request for a prompt gets: the empty texts for an unknown key, and else the template of one of
-- the versions of the key with its id, which is that of the active version or of the candidate.
abbrev pub Served : String → PromptEvolutionManager → Option (String × String) → Type 0
Served key m r =
    ((lookup key m.evolutions ≡ none) × (r ≡ some ("", "")))
    ⊎ ((evo : PromptEvolution) × (id : String) × (v : PromptVersion) × (lookup key m.evolutions
          ≡ some evo)
        × (lookup id evo.versions ≡ some v)
        × (r ≡ some (v.template, id))
        × ((id ≡ evo.active_version_id) ⊎ (evo.candidate_version_id ≡ some id)))

unknown_prompt :
    (lucky : Bool) (key : String) (m : PromptEvolutionManager)
    → lookup key m.evolutions ≡ none
    → get_prompt_with_id lucky key m ≡ some ("", "")
unfolding get_prompt_with_id
unknown_prompt lucky key m e = rw (e, get_prompt_with_id) refl

known_prompt :
    (lucky : Bool) (key : String) (m : PromptEvolutionManager) (evo : PromptEvolution)
    → lookup key m.evolutions ≡ some evo
    → get_prompt_with_id lucky key m ≡ choose lucky evo.candidate_version_id evo
unfolding get_prompt_with_id
known_prompt lucky key m evo e = rw (e, get_prompt_with_id) refl

-- The version that is chosen.
choose_found :
    (lucky : Bool) (c : Option String) (evo : PromptEvolution) (active : PromptVersion)
    → get_active evo ≡ some active
    → candidate_known c evo.versions ≡ true
    → (id : String) × (v : PromptVersion) × (lookup id evo.versions ≡ some v)
      × (choose lucky c evo ≡ some (v.template, id))
      × ((id ≡ evo.active_version_id) ⊎ (c ≡ some id))
choose_found lucky none evo active a k = (evo.active_version_id, active, a, rw a refl, inl refl)
choose_found lucky (some c) evo active a k = elim (Bool-cases (not (str_eq c "") && lucky)) [
  | inl yes' ↦ elim (Option-cases (lookup c evo.versions)) [
    | inl missing ↦ absurd (ground (arith, missing, k))
    | inr (v, has) ↦ (c, v, has, rw (yes', has) refl, inr refl)
  ]
  | inr no' ↦ (evo.active_version_id, active, a, rw (no', a) refl, inl refl)
]

candidate_sound :
    (evo : PromptEvolution)
    → is_sound evo ≡ true
    → candidate_known evo.candidate_version_id evo.versions ≡ true
candidate_sound evo h = ground arith

pub get_prompt_with_id-Served :
    (lucky : Bool) (key : String) (m : PromptEvolutionManager)
    → IsKept m
    → Served key m (get_prompt_with_id lucky key m)
get_prompt_with_id-Served lucky key m kept = elim (Option-cases (lookup key m.evolutions)) [
  | inl missing ↦ inl (missing, unknown_prompt lucky key m missing)
  | inr (evo, found) ↦
      let h = kept.sound key evo found in
      let (active, a) = active_found evo h in
      let (id, v, has, chosen, which) =
        choose_found lucky evo.candidate_version_id evo active a (candidate_sound evo h) in
      inr (evo, id, v, found, has, known_prompt lucky key m evo found ∙ chosen, which)
]
