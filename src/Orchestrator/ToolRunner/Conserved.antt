-- ===== src/Orchestrator/ToolRunner/Conserved.antt =====
-- The text of the model's answer goes through once and in its order.
use Prim.Native.String.{◌++◌}
use mathlib.Core.List
use text.Mathlib.TextLemmas.{append-nil, append_assoc, nil-append}
use ai_chatbot_platform.Prelude.{
  ◌≡◌, refl, sym, ap, ◌∙◌, inl, inr, some, List, [], ◌∷◌, String, ltb, Bool-cases, Option-cases,
}
use Prim.Native.String
use ai_chatbot_platform.Orchestrator.ToolRunner.{
  Found, StreamingToolRunner, contains, Event, yielded, notice, ran, result, max_buffer, flushed,
  waiting, called, on_buffer, wrap_from, wrap_stream,
}

-- The text that a call is found in.
abbrev pub call_text : String → String → String
call_text name args = "<tool_call: " ++ (name ++ ("(" ++ (args ++ ")>")))

-- `search` tells a call with its surroundings apart.
abbrev pub Splits : StreamingToolRunner → Type 0
Splits r =
    (b : String) (f : Found)
    → r.search b ≡ some f
    → b ≡ f.before ++ (call_text f.name f.args ++ f.after)

-- The part of the model's answer that an event stands for.
abbrev pub spoken : Event → String
spoken (yielded s) = s
spoken (notice name) = ""
spoken (ran name args) = call_text name args
spoken (result s) = ""

unfoldable pub all_spoken : List Event → String
all_spoken [] = ""
all_spoken (e ∷ es) = spoken e ++ all_spoken es

unfoldable pub concat : List String → String
concat [] = ""
concat (s ∷ ss) = s ++ concat ss

all_spoken-append :
    (xs ys : List Event) → all_spoken (List.◌++◌ xs ys) ≡ all_spoken xs ++ all_spoken ys
unfolding all_spoken
all_spoken-append [] ys = sym (nil-append (all_spoken ys))
all_spoken-append (x ∷ xs) ys =
    ap (λ t. spoken x ++ t) (all_spoken-append xs ys)
    ∙ sym (append_assoc (spoken x) (all_spoken xs) (all_spoken ys))

all_spoken-flushed : (s : String) → all_spoken (flushed s) ≡ s
unfolding all_spoken
all_spoken-flushed String.[] = refl
all_spoken-flushed (String.◌∷◌ c s) = append-nil (String.◌∷◌ c s)

-- What the events and the rest of the buffer stand for.
abbrev total : String × List Event → String
total (rest, events) = all_spoken events ++ rest

total-waiting : (b : String) → total (waiting b) ≡ b
unfolding all_spoken
total-waiting b = elim (Bool-cases (ltb max_buffer (String.count b))) [
  | inl long ↦ rw long (append-nil (b ++ "") ∙ append-nil b)
  | inr short ↦ rw short (nil-append b)
]

total-called :
    (r : StreamingToolRunner) (f : Found)
    → total (called r f) ≡ f.before ++ (call_text f.name f.args ++ f.after)
unfolding called all_spoken
total-called r f = simp (nil-append, append-nil, all_spoken-flushed f.after) refl

total-on_buffer : (r : StreamingToolRunner) (b : String) → Splits r → total (on_buffer r b) ≡ b
unfolding on_buffer all_spoken
total-on_buffer r b splits = elim (Bool-cases (contains "<tool_call:" b)) [
  | inr plain ↦ rw (plain, on_buffer) (append-nil (b ++ "") ∙ append-nil b)
  | inl tagged ↦ elim (Bool-cases (contains ">" b)) [
    | inr unclosed ↦ rw (tagged, unclosed, on_buffer) (total-waiting b)
    | inl closed ↦ elim (Option-cases (r.search b)) [
      | inl nothing ↦ rw (tagged, closed, nothing, on_buffer) (total-waiting b)
      | inr (f, found) ↦
          rw (tagged, closed, found, on_buffer) (total-called r f ∙ sym (splits b f found))
    ]
  ]
]

wrap_from-spoken :
    (r : StreamingToolRunner) (b : String) (chunks : List String)
    → Splits r
    → all_spoken (wrap_from r b chunks) ≡ b ++ concat chunks
unfolding wrap_from concat
wrap_from-spoken r b [] splits = all_spoken-flushed b ∙ sym (append-nil b)
wrap_from-spoken r b (chunk ∷ chunks) splits =
    let here = on_buffer r (b ++ chunk) in
    all_spoken-append here.1 (wrap_from r here.0 chunks)
    ∙ ap (λ t. all_spoken here.1 ++ t) (wrap_from-spoken r here.0 chunks splits)
    ∙ sym (append_assoc (all_spoken here.1) here.0 (concat chunks))
    ∙ ap (λ t. t ++ concat chunks) (total-on_buffer r (b ++ chunk) splits)
    ∙ append_assoc b chunk (concat chunks)

-- Where the search for a call tells apart what stands before the call, the call and what stands after
-- it: the texts that are yielded but for the notices and results of tools, with each call that is run
-- written out in its place, are the chunks of the stream joined, whatever the cuts between the chunks
-- are. So nothing is lost, doubled or moved.
pub wrap_stream-spoken :
    (r : StreamingToolRunner) (chunks : List String)
    → Splits r
    → all_spoken (wrap_stream r chunks) ≡ concat chunks
unfolding wrap_stream
wrap_stream-spoken r chunks splits =
    wrap_from-spoken r "" chunks splits ∙ nil-append (concat chunks)
