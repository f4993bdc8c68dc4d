-- ===== src/Orchestrator/ToolRunner/Unseen.antt =====
-- A call is only seen where its tag stands in one chunk.
use Prim.Native.String.{◌++◌}
use mathlib.Core.List
use text.Mathlib.TextLemmas.{nil-append}
use ai_chatbot_platform.Prelude.{◌≡◌, refl, ap, false, List, [], ◌∷◌, map, String, All}
use ai_chatbot_platform.Orchestrator.ToolRunner.{
  StreamingToolRunner, contains, yielded, on_buffer, wrap_from, wrap_stream,
}

on_buffer-untagged :
    (r : StreamingToolRunner) (b : String)
    → contains "<tool_call:" b ≡ false
    → on_buffer r b ≡ ("", yielded b ∷ [])
unfolding on_buffer
on_buffer-untagged r b plain = rw (plain, on_buffer) refl

wrap_from_nil : (r : StreamingToolRunner) → wrap_from r "" [] ≡ []
unfolding wrap_from
wrap_from_nil r = refl

wrap_from_step :
    (r : StreamingToolRunner) (b c : String) (chunks : List String)
    → wrap_from r b (c ∷ chunks)
      ≡ List.◌++◌ (on_buffer r (b ++ c)).1 (wrap_from r (on_buffer r (b ++ c)).0 chunks)
unfolding wrap_from
wrap_from_step r b c chunks = refl

wrap_from-untagged :
    (r : StreamingToolRunner) (chunks : List String)
    → All (λ c. contains "<tool_call:" c ≡ false) chunks
    → wrap_from r "" chunks ≡ map yielded chunks
wrap_from-untagged r [] plain = wrap_from_nil r
wrap_from-untagged r (c ∷ chunks) plain =
    rw (wrap_from_step r "" c chunks, nil-append c, on_buffer-untagged r c plain.0)
      (ap (λ es. yielded c ∷ es) (wrap_from-untagged r chunks plain.1))

-- If no single chunk has the beginning of a tag, each chunk is yielded as it is and no tool is run, also
-- where the chunks together spell a call.
pub wrap_stream-untagged :
    (r : StreamingToolRunner) (chunks : List String)
    → All (λ c. contains "<tool_call:" c ≡ false) chunks
    → wrap_stream r chunks ≡ map yielded chunks
unfolding wrap_stream
wrap_stream-untagged r chunks plain = wrap_from-untagged r chunks plain
