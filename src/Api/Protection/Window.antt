-- ===== src/Api/Protection/Window.antt =====
-- The pruned time stamps of a client are those of its requests in the window.
use Prim.Native.String
use mathlib.Core.List.{append-nil, append_assoc}
use ai_chatbot_platform.Prelude.{
  ◌≡◌, refl, sym, ap, ◌∙◌, ℕ, suc, ◌+◌, ◌-◌, ◌≤◌, Bool, true, false, ◌||◌, inl, inr, Option, none,
  some, List, [], ◌∷◌, ◌++◌, String, arith, ltb, leb, str_eq, eq_iff, length, length-append,
  if◌then◌else◌, Dict, lookup, lookup-put, Bool-cases,
}
use ai_chatbot_platform.Api.Protection.{
  Request, Signal, rapid_fire, oversized_body, missing_user_agent, path_traversal,
  excessive_headers, signal_if, later_signals, exceeds, host_of, agent_of, prune, tracked, stamped,
  detect, detect_all, abuse_rapid_window, abuse_rapid_count, abuse_large_body_threshold,
}

-- The client of a request; those without a host count as one.
abbrev pub client_of : Option String → String
client_of none = "unknown"
client_of (some host) = host

host_of_lem : (host : Option String) → host_of host ≡ client_of host
host_of_lem none = refl
host_of_lem (some host) = refl

-- The times at which a client's requests come.
unfoldable pub times_of : String → List (ℕ × Request) → ℕ → List ℕ
times_of ip [] now = []
times_of ip ((wait, request) ∷ requests) now =
    let rest = times_of ip requests (now + wait) in
    if str_eq (client_of request.client_host) ip then (now + wait) ∷ rest else rest

unfoldable pub time_after : List (ℕ × Request) → ℕ → ℕ
time_after [] now = now
time_after ((wait, request) ∷ requests) now = time_after requests (now + wait)

prune-append : (now : ℕ) (xs ys : List ℕ) → prune now (xs ++ ys) ≡ prune now xs ++ prune now ys
unfolding prune
prune-append now [] ys = refl
prune-append now (x ∷ xs) ys = elim (Bool-cases (ltb (now - x) abuse_rapid_window)) [
  | inl e ↦ rw (e, prune-append now xs ys) refl
  | inr e ↦ rw (e, prune-append now xs ys) refl
]

-- What was pruned before would be pruned now.
prune-prune :
    (now later : ℕ) (xs : List ℕ) → now ≤ later → prune later (prune now xs) ≡ prune later xs
unfolding prune
prune-prune now later [] h = refl
prune-prune now later (x ∷ xs) h = elim (Bool-cases (ltb (now - x) abuse_rapid_window)) [
  | inl e ↦ rw e (
      ap (λ l. if ltb (later - x) abuse_rapid_window then x ∷ l else l)
        (prune-prune now later xs h))
  | inr e ↦
      let gone : ltb (later - x) abuse_rapid_window ≡ false = ground arith in
      rw (e, gone) (prune-prune now later xs h)
]

time_after-le : (requests : List (ℕ × Request)) (now : ℕ) → now ≤ time_after requests now
unfolding time_after
time_after-le [] now = omega arith
time_after-le ((wait, request) ∷ requests) now = omega (arith, time_after-le requests (now + wait))

module _ (int : String → Option ℕ) (lower : String → String) where
  detect-tracked :
      (ip : String) (request : Request) (now : ℕ) (tracker : Dict (List ℕ))
      → tracked (lookup ip (detect int lower request now tracker).1) ≡ (
          if str_eq (client_of request.client_host) ip
          then prune now (tracked (lookup ip tracker)) ++ now ∷ []
          else tracked (lookup ip tracker))
  unfolding detect stamped
  detect-tracked ip request now tracker =
      let host = client_of request.client_host in
      rw (host_of_lem request.client_host) (elim (Bool-cases (str_eq host ip)) [
        | inl same ↦
            rw
              (lookup-put host ip (stamped host now tracker) tracker, same, (eq_iff host ip).0 same)
              refl
        | inr other ↦ rw (lookup-put host ip (stamped host now tracker) tracker, other) refl
      ])

  detect_all-tracked :
      (ip : String) (requests : List (ℕ × Request)) (now later : ℕ) (tracker : Dict (List ℕ))
      → time_after requests now ≤ later
      → prune later (tracked (lookup ip (detect_all int lower requests now tracker)))
        ≡ prune later (tracked (lookup ip tracker) ++ times_of ip requests now)
  unfolding detect_all times_of time_after
  detect_all-tracked ip [] now later tracker h = ap (prune later) (sym (append-nil _))
  detect_all-tracked ip ((wait, request) ∷ requests) now later tracker h =
      let at = now + wait in
      let old = tracked (lookup ip tracker) in
      let rest = times_of ip requests at in
      detect_all-tracked ip requests at later (detect int lower request at tracker).1 h
      ∙ elim (Bool-cases (str_eq (client_of request.client_host) ip)) [
        | inl same ↦
            rw (detect-tracked ip request at tracker, same)
              (ap (prune later) (append_assoc (prune at old) (at ∷ []) rest)
                ∙ prune-append later (prune at old) (at ∷ rest)
                ∙ ap (λ l. l ++ prune later (at ∷ rest))
                    (prune-prune at later old (omega (arith, h, time_after-le requests at)))
                ∙ sym (prune-append later old (at ∷ rest)))
        | inr other ↦ rw (detect-tracked ip request at tracker, other) refl
      ]

  stamped-window :
      (ip : String) (requests : List (ℕ × Request)) (now wait : ℕ)
      → length (stamped ip (time_after requests now + wait) (detect_all int lower requests now []))
        ≡ suc (length (prune (time_after requests now + wait) (times_of ip requests now)))
  unfolding stamped lookup
  stamped-window ip requests now wait =
      let end = time_after requests now + wait in
      rw (detect_all-tracked ip requests now end [] (omega arith))
        (omega (arith, length-append (prune end (times_of ip requests now)) (end ∷ [])))

  detect-signals :
      (request : Request) (now : ℕ) (tracker : Dict (List ℕ)) (oversized : Bool)
      → exceeds int abuse_large_body_threshold request.content_length ≡ some oversized
      → (detect int lower request now tracker).0
        ≡ some (
            signal_if
              (ltb abuse_rapid_count (length (stamped (client_of request.client_host) now tracker)))
              rapid_fire
            ++ later_signals int lower oversized request)
  unfolding detect
  detect-signals request now tracker oversized e =
      simp (detect, e, host_of_lem request.client_host) refl

-- How many of some times lie less than five seconds before a time.
unfoldable pub recent : ℕ → List ℕ → ℕ
recent now [] = 0
recent now (t ∷ ts) = (if ltb now (t + 5000) then 1 else 0) + recent now ts

length-prune : (now : ℕ) (ts : List ℕ) → length (prune now ts) ≡ recent now ts
unfolding prune recent
length-prune now [] = refl
length-prune now (t ∷ ts) = ground (arith, length-prune now ts)

-- The length that a header gives; one that is missing or empty counts as 0.
abbrev pub Announces : (String → Option ℕ) → Option String → ℕ → Type 0
Announces int none n = n ≡ 0
Announces int (some String.[]) n = n ≡ 0
Announces int (some (String.◌∷◌ c s)) n = int (String.◌∷◌ c s) ≡ some n

exceeds-Announces :
    (int : String → Option ℕ) (limit : ℕ) (header : Option String) (n : ℕ)
    → Announces int header n
    → exceeds int limit header ≡ some (ltb limit n)
exceeds-Announces int limit none n h = ap some (ground (arith, h))
exceeds-Announces int limit (some String.[]) n h = ap some (ground (arith, h))
exceeds-Announces int limit (some (String.◌∷◌ c s)) n h = rw (h, exceeds) refl

abbrev pub text_of : Option String → String
text_of none = ""
text_of (some s) = s

-- The signals for a request whose body has `n` bytes, when its client sent `sent` others shortly before.
abbrev pub signals_for : (String → String) → ℕ → ℕ → Request → List Signal
signals_for lower n sent request =
    (if ltb 19 sent then rapid_fire ∷ [] else [])
    ++ ((if ltb 524288 n then oversized_body ∷ [] else [])
        ++ ((if ltb (String.count (text_of request.user_agent)) 5
              then missing_user_agent ∷ []
              else [])
            ++ ((if leb (String.find request.path "..") (String.len request.path)
                    || leb (String.find (lower request.path) "%2e%2e")
                        (String.len (lower request.path))
                  then path_traversal ∷ []
                  else [])
                ++ (if ltb 50 request.header_count then excessive_headers ∷ [] else []))))

signal_if_lem : (b : Bool) (s : Signal) → signal_if b s ≡ (if b then s ∷ [] else [])
signal_if_lem true s = refl
signal_if_lem false s = refl

agent_of_lem : (ua : Option String) → agent_of ua ≡ text_of ua
agent_of_lem none = refl
agent_of_lem (some s) = refl

rapid_lem : (sent : ℕ) → ltb abuse_rapid_count (suc sent) ≡ ltb 19 sent
rapid_lem sent = ground arith

signals_for_lem :
    (int : String → Option ℕ) (lower : String → String) (n sent : ℕ) (request : Request)
    → signal_if (ltb abuse_rapid_count (suc sent)) rapid_fire
        ++ later_signals int lower (ltb abuse_large_body_threshold n) request
      ≡ signals_for lower n sent request
unfolding later_signals
signals_for_lem int lower n sent request =
    simp (rapid_lem sent, signal_if_lem, agent_of_lem request.user_agent) refl

-- After any requests of any clients, for a request whose Content-Length is a number, or missing or empty:
-- the signals are, in this order, rapid fire exactly if its client sent more than nineteen others in the
-- five seconds before it; an oversized body if the number is above 512 KiB; a missing user agent if that
-- has fewer than five characters; a path traversal if the path holds "..", or lowered "%2e%2e"; and
-- excessive headers if there are more than fifty; and no others.
pub detect-window :
    (int : String → Option ℕ) (lower : String → String) (requests : List (ℕ × Request))
    (request : Request) (now wait n : ℕ)
    → Announces int request.content_length n
    → (detect int lower request
        (time_after requests now + wait)
        (detect_all int lower requests now [])).0
      ≡ some (
          signals_for lower n
            (recent
              (time_after requests now + wait)
              (times_of (client_of request.client_host) requests now))
            request)
detect-window int lower requests request now wait n h =
    let end = time_after requests now + wait in
    let past = times_of (client_of request.client_host) requests now in
    detect-signals int lower request end _ _
      (exceeds-Announces int abuse_large_body_threshold request.content_length n h)
    ∙ ap
        (λ m. some (
          signal_if (ltb abuse_rapid_count m) rapid_fire
          ++ later_signals int lower (ltb abuse_large_body_threshold n) request))
        (stamped-window int lower (client_of request.client_host) requests now wait
          ∙ ap suc (length-prune end past))
    ∙ ap some (signals_for_lem int lower n (recent end past) request)
