-- ===== src/Api/Protection/Tests.antt =====
-- A client whose twenty-first request comes in the window, and in a request later than the window.
use ai_chatbot_platform.Prelude.{
  ◌≡◌, refl, ℕ, ◌+◌, Option, none, some, List, [], ◌∷◌, ◌++◌, String, lookup, put,
}
use ai_chatbot_platform.Api.Protection.{
  Request, crashed, limit_size, rapid_fire, later_signals, prune, stamped, detect, detect_all,
}
use ai_chatbot_platform.Api.Protection.Window.{
  recent, signals_for, times_of, time_after, detect-window,
}

abbrev no_number : String → Option ℕ
no_number s = none

abbrev same_text : String → String
same_text s = s

abbrev client_request : Request
client_request = record {
  client_host = some "10.0.0.1";
  content_length = none;
  user_agent = some "curl/8.0";
  path = "/chat";
  header_count = 6;
}

abbrev five : List (ℕ × Request)
five =
    (1, client_request)
    ∷ (1, client_request)
    ∷ (1, client_request)
    ∷ (1, client_request)
    ∷ (1, client_request)
    ∷ []

abbrev twenty : List (ℕ × Request)
twenty = five ++ (five ++ (five ++ five))

detect_rapid :
    (detect no_number same_text client_request 21 (detect_all no_number same_text twenty 0 [])).0
    ≡ some (rapid_fire ∷ [])
unfolding detect detect_all stamped prune later_signals lookup put
detect_rapid = refl

detect_patient :
    (detect no_number same_text client_request 6000 (detect_all no_number same_text twenty 0 [])).0
    ≡ some []
unfolding detect detect_all stamped prune later_signals lookup put
detect_patient = refl

-- A length that is no number is answered by an exception.
abbrev malformed : Request
malformed = record client_request { content_length = some "many" }

limit_size-malformed : limit_size {A = String} no_number 100 "fine" malformed ≡ crashed
unfolding limit_size
limit_size-malformed = refl

detect-window_example :
    (detect no_number same_text client_request
      (time_after twenty 0 + 1)
      (detect_all no_number same_text twenty 0 [])).0
    ≡ some (
        signals_for same_text 0
          (recent (time_after twenty 0 + 1) (times_of "10.0.0.1" twenty 0))
          client_request)
detect-window_example = detect-window no_number same_text twenty client_request 0 1 0 refl
