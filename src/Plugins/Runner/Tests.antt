-- ===== src/Plugins/Runner/Tests.antt =====
-- A weather plugin that answers, and children that do not.
use ai_chatbot_platform.Prelude.{◌≡◌, refl, ◌⊎◌, true, none, some, [], ◌∷◌, lookup}
use ai_chatbot_platform.Plugins.PyInt.{Bytes, int, strip}
use ai_chatbot_platform.Plugins.Protocol.{
  null, empty_dict, truth, text, Message, Loaded, malformed, object, readline,
}
use ai_chatbot_platform.Plugins.Runner.{
  Ran, killed, Platform, parse_response, load_slice, run_plugin,
}
use ai_chatbot_platform.Plugins.Runner.Responses.{Answered, Refused, run_plugin_cases}

abbrev sunny : Ran (Unit {0})
sunny = record {
  outcome = some (text "sunny");
  failure = record { type = ""; message = "" };
  printed = "asked";
  complained = "";
}

abbrev asked : Message (Unit {0})
asked =
    ("method", text "invoke")
    ∷ ("plugin_module", text "weather")
    ∷ ("function_name", text "get_weather")
    ∷ ("kwargs", empty_dict)
    ∷ ("request_id", text "r1")
    ∷ []

abbrev answered : Message (Unit {0})
answered =
    ("success", truth true)
    ∷ ("result", text "sunny")
    ∷ ("error", null)
    ∷ ("error_type", null)
    ∷ ("execution_time_ms", null)
    ∷ ("stdout", text "asked")
    ∷ ("stderr", text "")
    ∷ ("request_id", text "r1")
    ∷ []

abbrev dumped : Message (Unit {0}) → Bytes
dumped m = elim (lookup "success" m) [ none ↦ 123 ∷ 125 ∷ [] | some _ ↦ 123 ∷ 32 ∷ 125 ∷ [] ]

-- A text of two bytes is the request, and a longer one the response.
abbrev loaded : Bytes → Loaded (Unit {0})
loaded [] = malformed
loaded (a ∷ []) = malformed
loaded (a ∷ b ∷ []) = object asked
loaded (a ∷ b ∷ c ∷ s) = object answered

abbrev platform : Platform (Unit {0})
platform = record {
  json = record { dumps = dumped; loads = loaded };
  call = λ m f k. sunny;
  clip = λ s. s;
  safe_decode = λ b. "";
  describe = λ e. e.type;
  timed_out = "Plugin timed out";
  exit_code = λ n. "Subprocess exited";
  launch_error = λ e. "Subprocess launch error";
  elapsed = null;
  zero_ms = null;
  truthy_other = λ x. true;
}

-- An answer of which only a part arrived is parsed like a whole one, where its part is JSON.
partial_answer : parse_response platform (51 ∷ 10 ∷ 123 ∷ 125 ∷ []) ≡ some (object asked)
unfolding parse_response load_slice readline int strip
partial_answer = refl

run_plugin_cases_example :
    Refused (run_plugin platform (λ b. killed []) "weather" "get_weather" empty_dict "r1")
    ⊎ Answered platform
        (killed [])
        (run_plugin platform (λ b. killed []) "weather" "get_weather" empty_dict "r1")
run_plugin_cases_example =
    run_plugin_cases platform (λ b. killed []) "weather" "get_weather" empty_dict "r1"
