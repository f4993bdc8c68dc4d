-- ===== src/KnowledgeGraph/Trust/Tests.antt =====
-- A page of a domain of low trust, and a short one of a trusted domain.
use ai_chatbot_platform.Prelude.{◌≡◌, refl, some, List, [], ◌∷◌, String, str_eq}
use ai_chatbot_platform.KnowledgeGraph.Trust.{
  unverified, Documents, is_trusted_domain, evaluate_source, score_domain, evaluate_content_quality,
  text_points, length_points, sentence_points, special_points, repetition_points, unique_words,
  status_of, evaluate,
}
use ai_chatbot_platform.KnowledgeGraph.Trust.LowTrust.{default_evaluator}

abbrev documents : Documents
documents = record {
  urlparse = λ url. some (url, "https");
  lower = λ s. s;
  strip = λ s. s;
  split = λ s. s ∷ [];
  low_trust = λ domain. str_eq domain "free.tk";
  sentences = λ s. 4;
  specials = λ s. 0;
}

abbrev domains : List String
domains = "redis.io" ∷ "github.com" ∷ []

-- One word is too little, and yet the page of the trusted domain is ingested.
short_page :
    (evaluate documents (default_evaluator domains) "docs.redis.io" "hello").verification_status
    ≡ unverified
unfolding evaluate evaluate_source score_domain is_trusted_domain evaluate_content_quality
    text_points length_points sentence_points special_points repetition_points status_of
    unique_words
short_page = refl
