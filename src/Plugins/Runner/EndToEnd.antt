-- ===== src/Plugins/Runner/EndToEnd.antt =====
-- From the parent over the child and back.
use ai_chatbot_platform.Prelude.{true, false, Option, none, some}
use ai_chatbot_platform.Plugins.PyInt.{Bytes}
use ai_chatbot_platform.Plugins.Protocol.{Value, null, truth, text}
use ai_chatbot_platform.Plugins.Runner.{
  Platform, Ran, Process, exited, PluginRunResult, child, or_decoded,
}

module _ {J : Type 0} (p : Platform J) where
  -- The operating system runs the child to its end within the time.
  abbrev pub runs_child : Bytes → Bytes → Process
  runs_child stderr stdin = exited (child p stdin).0 (child p stdin).1 stderr

  -- The result of the call of a plugin's function.
  unfoldable pub ran_result : Option (Value J) → Ran J → Bytes → PluginRunResult J
  ran_result (some v) ran stderr = record {
    success = truth true;
    result = v;
    error = null;
    error_type = null;
    stdout_log = text (p.clip ran.printed);
    stderr_log = or_decoded p (text (p.clip ran.complained)) stderr;
  }
  ran_result none ran stderr = record {
    success = truth false;
    result = null;
    error = text (p.describe ran.failure);
    error_type = text ran.failure.type;
    stdout_log = text (p.clip ran.printed);
    stderr_log = or_decoded p (text (p.clip ran.complained)) stderr;
  }
