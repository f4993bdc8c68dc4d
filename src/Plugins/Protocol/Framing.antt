-- ===== src/Plugins/Protocol/Framing.antt =====
-- A written message is read back.
use ai_chatbot_platform.Prelude.{
  ◌≡◌, refl, ap, ◌∙◌, ℕ, ◌≤◌, ◌<◌, false, some, [], ◌∷◌, ◌++◌, arith, length, take-append_length,
  drop-append_length, All, lookup,
}
use mathlib.Core.List.{append_assoc}
use ai_chatbot_platform.Plugins.PyInt.{Bytes, str, int, IsDigit, str-All, int-str, str_some}
use ai_chatbot_platform.Plugins.Protocol.{
  Message, object, Json, max_payload, write_message, readline, read_payload, read_message,
  PluginRequest, PluginResponse, request_to_dict, request_from_dict, response_to_dict,
  response_from_dict, Value,
}

pub readline-append : (h s : Bytes) → All IsDigit h → readline (h ++ (10 ∷ s)) ≡ (h ++ 10 ∷ [], s)
unfolding readline
readline-append [] s a = refl
readline-append (c ∷ h) s a = ground (arith, a.0, readline-append h s a.1)

pub readline-digits : (h : Bytes) → All IsDigit h → readline h ≡ (h, [])
unfolding readline
readline-digits [] a = refl
readline-digits (c ∷ h) a = ground (arith, a.0, readline-digits h a.1)

-- The reader on a header that is a number.
pub read_message_step :
    {J : Type 0} (json : Json J) (stream : Bytes) (c : ℕ) (line rest : Bytes) (n : ℕ)
    → readline stream ≡ (c ∷ line, rest)
    → int (c ∷ line) ≡ some (false, n)
    → read_message json stream ≡ read_payload json false n rest
unfolding read_message
read_message_step json stream c line rest n e f =
    rw (e, f, read_message) (ap (λ p. read_payload json false n p.1) e)

pub written-stream :
    {J : Type 0} (json : Json J) (msg : Message J) (rest : Bytes)
    → write_message json msg ++ rest
      ≡ str (length (json.dumps msg)) ++ (10 ∷ (json.dumps msg ++ rest))
unfolding write_message
written-stream json msg rest =
    append_assoc (str (length (json.dumps msg))) (10 ∷ json.dumps msg) rest

pub str_line : (n : ℕ) → (c : ℕ) × (line : Bytes) × (str n ++ 10 ∷ [] ≡ c ∷ line)
str_line n = let (c, s, e) = str_some n in (c, s ++ 10 ∷ [], ap (λ h. h ++ 10 ∷ []) e)

-- The reader on the header of a written message.
pub read_message_header :
    {J : Type 0} (json : Json J) (n : ℕ) (s : Bytes)
    → read_message json (str n ++ (10 ∷ s)) ≡ read_payload json false n s
read_message_header json n s =
    let (c, line, e) = str_line n in
    let first : readline (str n ++ (10 ∷ s)) ≡ (c ∷ line, s) =
      readline-append (str n) s (str-All n) ∙ ap (λ h. (h, s)) e in
    let number : int (c ∷ line) ≡ some (false, n) = rw e at (int-str n) in
    read_message_step json (str n ++ (10 ∷ s)) c line s n first number

read_payload_whole :
    {J : Type 0} (json : Json J) (payload rest : Bytes)
    → 0 < length payload
    → length payload ≤ max_payload
    → read_payload json false (length payload) (payload ++ rest) ≡ (some (json.loads payload), rest)
unfolding read_payload
read_payload_whole json payload rest pos fits =
    ground (arith, take-append_length payload rest, drop-append_length payload rest)

-- A message whose JSON text has at least one byte and at most 10 MB, and reads back as JSON, is read
-- back from the stream that it was written to, and nothing of what follows it is touched.
pub read_message-write_message :
    {J : Type 0} (json : Json J) (msg : Message J) (rest : Bytes)
    → 0 < length (json.dumps msg)
    → length (json.dumps msg) ≤ max_payload
    → json.loads (json.dumps msg) ≡ object msg
    → read_message json (write_message json msg ++ rest) ≡ (some (object msg), rest)
read_message-write_message json msg rest pos fits loads =
    let payload = json.dumps msg in
    rw
      (
        written-stream json msg rest,
        read_message_header json (length payload) (payload ++ rest),
        read_payload_whole json payload rest pos fits,
        loads,
      )
      refl

-- The data classes come back from their dictionaries.
pub request_from_dict-request_to_dict :
    {J : Type 0} (r : PluginRequest J) → request_from_dict (request_to_dict r) ≡ r
unfolding request_from_dict request_to_dict lookup
request_from_dict-request_to_dict r = refl

pub response_from_dict-response_to_dict :
    {J : Type 0} (zero_ms : Value J) (r : PluginResponse J)
    → response_from_dict zero_ms (response_to_dict r) ≡ r
unfolding response_from_dict response_to_dict lookup
response_from_dict-response_to_dict zero_ms r = refl
