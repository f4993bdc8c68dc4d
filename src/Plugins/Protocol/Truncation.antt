-- ===== src/Plugins/Protocol/Truncation.antt =====
-- A message that is cut short is never read.
use ai_chatbot_platform.Prelude.{
  ◌≡◌, refl, ap, ◌∙◌, ℕ, suc, ◌+◌, ◌-◌, ◌<◌, Bool, false, ◌⊎◌, inl, inr, none, some, [], ◌∷◌, ◌++◌,
  arith, leb, length, take, take-append_of_le, take-append_add, length-take, length-append,
  All-take, leb→le, Bool-cases, Option-cases,
}
use ai_chatbot_platform.Plugins.PyInt.{Bytes, str, int, IsDigit, str-All}
use ai_chatbot_platform.Plugins.Protocol.{
  Message, Json, write_message, readline, read_payload, read_message,
}
use ai_chatbot_platform.Plugins.Protocol.Framing.{readline-digits, read_message_header}

-- Fewer bytes than the header says.
read_payload_short :
    {J : Type 0} (json : Json J) (negative : Bool) (n : ℕ) (s : Bytes)
    → (length s < n) ⊎ (length s ≡ 0)
    → (read_payload json negative n s).0 ≡ none
unfolding read_payload
read_payload_short json negative n s (inl h) = ground (arith, length-take n s)
read_payload_short json negative n s (inr h) = ground (arith, length-take n s)

read_message_first :
    {J : Type 0} (json : Json J) (c : ℕ) (s : Bytes)
    → readline (c ∷ s) ≡ (c ∷ s, [])
    → (int (c ∷ s) ≡ none) ⊎ ((x : Bool × ℕ) × (int (c ∷ s) ≡ some x))
    → (read_message json (c ∷ s)).0 ≡ none
unfolding read_message
read_message_first json c s e (inl f) = rw (e, f, read_message) refl
read_message_first json c s e (inr ((negative, n), f)) =
    rw (e, f, read_message)
      (ap (λ p. (read_payload json negative n p.1).0) e
        ∙ read_payload_short json negative n [] (inr refl))

-- A stream that ends within its first line.
read_message_line :
    {J : Type 0} (json : Json J) (stream : Bytes)
    → readline stream ≡ (stream, [])
    → (read_message json stream).0 ≡ none
unfolding read_message readline
read_message_line json [] e = refl
read_message_line json (c ∷ s) e = read_message_first json c s e (Option-cases (int (c ∷ s)))

lt_of_leb : (a b : ℕ) → leb a b ≡ false → b < a
lt_of_leb a b h = ground arith

-- However a written message is cut short, also within its header, nothing is read from what is left.
pub read_message-take :
    {J : Type 0} (json : Json J) (msg : Message J) (k : ℕ)
    → k < length (write_message json msg)
    → (read_message json (take k (write_message json msg))).0 ≡ none
unfolding write_message
read_message-take json msg k h =
    let payload = json.dumps msg in
    let header = str (length payload) in
    let all = str-All (length payload) in
    elim (Bool-cases (leb k (length header))) [
      | inl inside ↦
          rw
            (take-append_of_le k header (10 ∷ payload)
              (omega (arith, leb→le k (length header) inside)))
            (read_message_line json (take k header)
              (readline-digits (take k header) (All-take IsDigit k header all)))
      | inr beyond ↦
          let j = k - length header - 1 in
          let split : take k (header ++ (10 ∷ payload)) ≡ header ++ (10 ∷ take j payload) =
            ap (λ i. take i (header ++ (10 ∷ payload))) {y = length header + suc j}
              (omega (arith, lt_of_leb k (length header) beyond))
            ∙ take-append_add (suc j) header (10 ∷ payload) in
          let bound : k < length header + suc (length payload) =
            omega (arith, h, length-append header (10 ∷ payload)) in
          rw (split, read_message_header json (length payload) (take j payload))
            (read_payload_short json false (length payload) (take j payload) (
              inl
                (omega (arith, length-take j payload, bound, lt_of_leb k (length header) beyond))))
    ]
