-- ===== src/Plugins/Runner/Responses.antt =====
-- When a call of a plugin counts as a success.
use ai_chatbot_platform.Prelude.{
  ◌≡◌, refl, ◌⊎◌, inl, inr, zero, suc, false, none, some, String, arith, Option-cases,
}
use ai_chatbot_platform.Plugins.PyInt.{Bytes}
use ai_chatbot_platform.Plugins.Protocol.{
  Value, null, truth, text, Message, Loaded, malformed, null_document, not_a_dict, object, get,
  write_message, request_to_dict, response_from_dict,
}
use ai_chatbot_platform.Plugins.Runner.{
  Platform, Process, exited, killed, launch_failed, PluginRunResult, parse_response, finish,
  outcome_of, request_of, run_plugin,
}

-- An answer of a child that has exited with 0, as the parent reads it.
abbrev pub Answered : {J : Type 0} → Platform J → Process → PluginRunResult J → Type 0
Answered {J} p x r =
    (stdout : Bytes) × (stderr : Bytes) × (d : Message J) × (x ≡ exited 0 stdout stderr)
    × (parse_response p stdout ≡ some (object d))
    × (r.success ≡ get "success" (truth false) d)
    × (r.result ≡ get "result" null d)
    × (r.error ≡ get "error" null d)

abbrev pub Refused : {J : Type 0} → PluginRunResult J → Type 0
Refused r =
    (r.success ≡ truth false) × (r.result ≡ null) × ((message : String) × (r.error ≡ text message))

module _ {J : Type 0} (p : Platform J) where
  finish_unread :
      (stdout stderr : Bytes) → parse_response p stdout ≡ none → Refused (finish p stdout stderr)
  unfolding finish
  finish_unread stdout stderr e = rw (e, finish) (refl, refl, (_, refl))

  finish_read :
      (stdout stderr : Bytes) (x : Loaded J)
      → parse_response p stdout ≡ some x
      → Refused (finish p stdout stderr)
        ⊎ Answered p (exited 0 stdout stderr) (finish p stdout stderr)
  unfolding finish response_from_dict
  finish_read stdout stderr malformed e = inl (rw (e, finish) (refl, refl, (_, refl)))
  finish_read stdout stderr null_document e = inl (rw (e, finish) (refl, refl, (_, refl)))
  finish_read stdout stderr not_a_dict e = inl (rw (e, finish) (refl, refl, (_, refl)))
  finish_read stdout stderr (object d) e =
      inr
        (stdout, stderr, d, refl, e, rw (e, finish) refl, rw (e, finish) refl, rw (e, finish) refl)

  outcome_of_cases : (x : Process) → Refused (outcome_of p x) ⊎ Answered p x (outcome_of p x)
  unfolding outcome_of
  outcome_of_cases (launch_failed e) = inl (refl, refl, (_, refl))
  outcome_of_cases (killed stderr) = inl (refl, refl, (_, refl))
  outcome_of_cases (exited (suc code) stdout stderr) =
      inl (ground arith, ground arith, (p.exit_code (suc code), ground arith))
  outcome_of_cases (exited zero stdout stderr) = elim (Option-cases (parse_response p stdout)) [
    | inl e ↦ inl (finish_unread stdout stderr e)
    | inr (x, e) ↦ finish_read stdout stderr x e
  ]

  -- Whatever becomes of the process, a call gives a result. Either it is a failure with no result and a
  -- text for its error; or the process has exited with 0 and its output parses to a dictionary, and the
  -- success, the result and the error are those of the dictionary.
  pub run_plugin_cases :
      (spawn : Bytes → Process) (plugin_module function_name : String) (kwargs : Value J)
      (id : String)
      → Refused (run_plugin p spawn plugin_module function_name kwargs id)
        ⊎ Answered p
            (spawn (
              write_message p.json
                (request_to_dict (request_of p plugin_module function_name kwargs id))))
            (run_plugin p spawn plugin_module function_name kwargs id)
  unfolding run_plugin
  run_plugin_cases spawn plugin_module function_name kwargs id = outcome_of_cases (
      spawn (
        write_message p.json
          (request_to_dict (request_of p plugin_module function_name kwargs id))))
