-- ===== src/Api/Protection.antt =====
-- app/api/middleware/request_protection.py: the cap on a request's size and the signals of abuse.
--
-- The times are in thousandths of a second. `int` of a text is a parameter, `none` where it raises; a
-- negative number counts as 0, which the tests here do not tell apart. So are the answer of the
-- application behind and `str.lower`.
mod Window
mod Tests
use Prim.Native.String
use ai_chatbot_platform.Prelude.{
  ◌≡◌, ℕ, ◌+◌, ◌-◌, ◌*◌, Bool, true, false, ◌||◌, Option, none, some, List, [], ◌∷◌, ◌++◌, String,
  ltb, leb, str_eq, length, if◌then◌else◌, Dict, lookup, put,
}

abbrev pub max_body_bytes : ℕ
max_body_bytes = 1024 * 1024

abbrev pub abuse_rapid_window : ℕ
abuse_rapid_window = 5000

abbrev pub abuse_rapid_count : ℕ
abuse_rapid_count = 20

abbrev pub abuse_large_body_threshold : ℕ
abuse_large_body_threshold = 512 * 1024

pub record Request : Type 0 where
  pub client_host : Option String
  pub content_length : Option String
  pub user_agent : Option String
  pub path : String
  pub header_count : ℕ

-- A response of the middleware or of what is behind it; `crashed` is the `ValueError` of `int`.
pub data Response {ℓ} (A : Type ℓ) : Type ℓ where
  too_large crashed : Response A
  answered : A → Response A

-- Whether a header that is there, and not empty, is a number above a limit.
abbrev pub exceeds : (String → Option ℕ) → ℕ → Option String → Option Bool
exceeds int limit none = some false
exceeds int limit (some String.[]) = some false
exceeds int limit (some (String.◌∷◌ c s)) = elim (int (String.◌∷◌ c s)) [
  | none ↦ none
  | some n ↦ some (ltb limit n)
]

abbrev pub gated {ℓ} : {A : Type ℓ} → Option Bool → A → Response A
gated none a = crashed
gated (some true) a = too_large
gated (some false) a = answered a

-- `RequestSizeLimitMiddleware.dispatch`
unfoldable pub limit_size {ℓ} : {A : Type ℓ} → (String → Option ℕ) → ℕ → A → Request → Response A
limit_size int max_bytes answer request =
    gated (exceeds int max_bytes request.content_length) answer

pub data Signal : Type 0 where
  rapid_fire oversized_body missing_user_agent path_traversal excessive_headers : Signal

abbrev pub signal_if : Bool → Signal → List Signal
signal_if true s = s ∷ []
signal_if false s = []

abbrev pub host_of : Option String → String
host_of none = "unknown"
host_of (some host) = host

-- `[t for t in timestamps if now - t < _ABUSE_RAPID_WINDOW]`
unfoldable pub prune : ℕ → List ℕ → List ℕ
prune now [] = []
prune now (t ∷ ts) =
    let rest = prune now ts in if ltb (now - t) abuse_rapid_window then t ∷ rest else rest

abbrev pub tracked : Option (List ℕ) → List ℕ
tracked none = []
tracked (some ts) = ts

-- The time stamps of a client after a request.
unfoldable pub stamped : String → ℕ → Dict (List ℕ) → List ℕ
unfolding prune
stamped ip now tracker = prune now (tracked (lookup ip tracker)) ++ now ∷ []

abbrev pub contains : String → String → Bool
contains needle s = leb (String.find s needle) (String.len s)

abbrev pub agent_of : Option String → String
agent_of none = ""
agent_of (some ua) = ua

module _ (int : String → Option ℕ) (lower : String → String) where
  -- The signals behind the first, where the length of the body is a number.
  unfoldable pub later_signals : Bool → Request → List Signal
  later_signals oversized request =
      signal_if oversized oversized_body
      ++ (signal_if (ltb (String.count (agent_of request.user_agent)) 5) missing_user_agent
          ++ (signal_if (contains ".." request.path || contains "%2e%2e" (lower request.path))
                path_traversal
              ++ signal_if (ltb 50 request.header_count) excessive_headers))

  -- `AbuseDetectionMiddleware.dispatch`: the signals, none where `int` raises, and the tracker.
  unfoldable pub detect : Request → ℕ → Dict (List ℕ) → Option (List Signal) × Dict (List ℕ)
  unfolding stamped later_signals
  detect request now tracker =
      let ip = host_of request.client_host in
      let stamps = stamped ip now tracker in
      let rapid = signal_if (ltb abuse_rapid_count (length stamps)) rapid_fire in
      (
        elim (exceeds int abuse_large_body_threshold request.content_length) [
          | none ↦ none
          | some oversized ↦ some (rapid ++ later_signals oversized request)
        ],
        put ip stamps tracker,
      )

  -- The tracker after requests, each with the time since the one before.
  unfoldable pub detect_all : List (ℕ × Request) → ℕ → Dict (List ℕ) → Dict (List ℕ)
  unfolding detect
  detect_all [] now tracker = tracker
  detect_all ((wait, request) ∷ requests) now tracker =
      detect_all requests (now + wait) (detect request (now + wait) tracker).1
