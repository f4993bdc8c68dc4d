-- ===== src/Plugins/Protocol/Tests.antt =====
-- A message of two bytes, as its frame and cut short.
use ai_chatbot_platform.Prelude.{
  ◌≡◌, refl, ◌<◌, false, none, some, [], ◌∷◌, ◌++◌, arith, length, take,
}
use ai_chatbot_platform.Plugins.PyInt.{Bytes, str, int, strip}
use ai_chatbot_platform.Plugins.Protocol.{
  text, Message, Loaded, malformed, object, Json, write_message, read_message,
}
use ai_chatbot_platform.Plugins.Protocol.Framing.{read_message-write_message}
use ai_chatbot_platform.Plugins.Protocol.Truncation.{read_message-take}

abbrev hello : Message (Unit {0})
hello = ("method", text "invoke") ∷ []

abbrev braces : Bytes
braces = 123 ∷ 125 ∷ []

abbrev parsed : Bytes → Loaded (Unit {0})
parsed [] = malformed
parsed (c ∷ s) = object hello

abbrev json : Json (Unit {0})
json = record { dumps = λ m. braces; loads = parsed }

written : write_message json hello ≡ 50 ∷ 10 ∷ braces
unfolding write_message str
written = refl

-- `int` takes a sign, white space and single underscores.
lenient : int (32 ∷ 43 ∷ 49 ∷ 95 ∷ 50 ∷ 13 ∷ []) ≡ some (false, 12)
unfolding int strip
lenient = refl

read_message-write_message_example :
    read_message json (write_message json hello ++ 7 ∷ []) ≡ (some (object hello), 7 ∷ [])
read_message-write_message_example =
    read_message-write_message json hello (7 ∷ []) (omega arith) (omega arith) refl

three_bytes : 3 < length (write_message json hello)
three_bytes = rw written (omega arith)

read_message-take_example : (read_message json (take 3 (write_message json hello))).0 ≡ none
read_message-take_example = read_message-take json hello 3 three_bytes
