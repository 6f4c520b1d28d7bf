-- ===== src/Dns/Names.antt =====
-- dnsserver.c: queries as a resolver writes them, and what they are answered with.
use mathlib.Core.List.{append_assoc}
use robotic_car_p3e.Prelude.{
  ℕ, zero, suc, ◌+◌, ◌≤◌, ◌<◌, ◌≡◌, refl, sym, ap, ◌∙◌, List, [], ◌∷◌, ◌++◌, arith, length, take,
  drop, get_or, length-append, get_or-append, take-append_exact, take-all, true, min,
}
use robotic_car_p3e.Dns.Server.{
  ended, walk, header_size, max_dns_msg_size, answer, reply_header, make_reply, on_question, sent,
  dns_server_process, is_query, load_message,
}
use robotic_car_p3e.Dns.Question.{make_reply_lem, length-load_message}

-- A name as its labels, each with its length before it, and a zero behind the last.
abbrev pub encode_name : List (List ℕ) → List ℕ
encode_name [] = 0 ∷ []
encode_name (l ∷ ls) = length l ∷ (l ++ encode_name ls)

abbrev pub AllLabels : List (List ℕ) → Type 0
AllLabels [] = Unit {0}
AllLabels (l ∷ ls) = (0 < length l) × (length l ≤ 63) × AllLabels ls

-- A question: a name, and the bytes of its type and class.
abbrev pub question_of : List (List ℕ) → ℕ → ℕ → ℕ → ℕ → List ℕ
question_of ls t1 t2 c1 c2 = encode_name ls ++ t1 ∷ t2 ∷ c1 ∷ c2 ∷ []

walk-encode_name :
    (fuel : ℕ) (pre : List ℕ) (ls : List (List ℕ)) (rest : List ℕ) (len at : ℕ)
    → at ≡ length pre
    → length (encode_name ls) ≤ fuel
    → at + length (encode_name ls) ≤ len
    → AllLabels ls
    → walk fuel (pre ++ (encode_name ls ++ rest)) len at ≡ ended (at + length (encode_name ls))
unfolding walk
walk-encode_name zero pre [] rest len at here fits room ok = absurd (omega arith)
walk-encode_name zero pre (l ∷ ls) rest len at here fits room ok = absurd (omega arith)
walk-encode_name (suc fuel) pre [] rest len at here fits room ok = ground (arith, byte)
  where
    byte : get_or (pre ++ (0 ∷ rest)) at 0 ≡ 0
    byte = ap (λ i. get_or (pre ++ (0 ∷ rest)) i 0) (omega arith) ∙ get_or-append pre (0 ∷ rest) 0 0
walk-encode_name (suc fuel) pre (l ∷ ls) rest len at here fits room ok = ground (
  arith,
  byte,
  longer,
  again (
      walk-encode_name fuel (pre ++ (length l ∷ l)) ls rest len (at + 1 + length l)
        (omega (arith, length-append {0} pre (length l ∷ l))) (omega (arith, longer))
        (omega (arith, longer)) ok.2),
)
  where
    msg : List ℕ
    msg = pre ++ (encode_name (l ∷ ls) ++ rest)

    longer : length (l ++ encode_name ls) ≡ length l + length (encode_name ls)
    longer = length-append l (encode_name ls)

    byte : get_or msg at 0 ≡ length l
    byte =
        ap (λ i. get_or msg i 0) (omega arith)
        ∙ get_or-append pre (encode_name (l ∷ ls) ++ rest) 0 0

    regroup : (pre ++ (length l ∷ l)) ++ (encode_name ls ++ rest) ≡ msg
    regroup = simp append_assoc

    again :
        walk fuel ((pre ++ (length l ∷ l)) ++ (encode_name ls ++ rest)) len (at + 1 + length l)
          ≡ ended (at + 1 + length l + length (encode_name ls))
        → walk fuel msg len (at + 1 + length l)
          ≡ ended (at + 1 + length l + length (encode_name ls))
    again e = ap (λ m. walk fuel m len (at + 1 + length l)) (sym regroup) ∙ e

module _ (i1 i2 f1 f2 q1 q2 a1 a2 n1 n2 r1 r2 : ℕ) (ip stack : List ℕ) (four : length ip ≡ 4)
    (size : length stack ≡ max_dns_msg_size)
    (standard : is_query (i1 ∷ i2 ∷ f1 ∷ f2 ∷ q1 ∷ q2 ∷ []) ≡ true) where
  -- The header of a query.
  abbrev query_header : List ℕ
  query_header = i1 ∷ i2 ∷ f1 ∷ f2 ∷ q1 ∷ q2 ∷ a1 ∷ a2 ∷ n1 ∷ n2 ∷ r1 ∷ r2 ∷ []

  -- A standard query for a name of labels of 1 to 63 bytes, 255 bytes at most with their lengths,
  -- is answered: the reply has the query's identifier, the reply's flags and counts, the question
  -- as it came, name, type and class, and the server's address as the answer.
  pub dns_server_process-query :
      (ls : List (List ℕ)) (t1 t2 c1 c2 : ℕ) (more : List ℕ)
      → AllLabels ls
      → length (encode_name ls) ≤ 255
      → length (query_header ++ (question_of ls t1 t2 c1 c2 ++ more)) ≤ max_dns_msg_size
      → dns_server_process ip stack (query_header ++ (question_of ls t1 t2 c1 c2 ++ more))
        ≡ sent (i1 ∷ i2 ∷ (reply_header ++ (question_of ls t1 t2 c1 c2 ++ answer ip)))
  unfolding dns_server_process is_query on_question
  dns_server_process-query ls t1 t2 c1 c2 more ok short fits =
      ground (arith, standard, ends, made, ap length whole)
    where
      name : List ℕ
      name = encode_name ls

      question : List ℕ
      question = name ++ t1 ∷ t2 ∷ c1 ∷ c2 ∷ []

      payload : List ℕ
      payload = query_header ++ (question ++ more)

      behind : List ℕ
      behind = drop (length payload) stack

      msg : List ℕ
      msg = load_message payload stack

      len : ℕ
      len = min max_dns_msg_size (length payload)

      length_payload : length payload ≡ 12 + (length name + 4 + length more)
      length_payload =
          omega (
            arith,
            length-append {0} question more,
            length-append {0} name (t1 ∷ t2 ∷ c1 ∷ c2 ∷ []),
          )

      at : ℕ
      at = 12 + length name

      whole : msg ≡ payload ++ behind
      whole = ap (λ p. p ++ behind) (take-all payload max_dns_msg_size fits)

      at_name : query_header ++ (name ++ (t1 ∷ t2 ∷ c1 ∷ c2 ∷ (more ++ behind))) ≡ msg
      at_name = simp append_assoc refl ∙ sym whole

      ends : walk (suc max_dns_msg_size) msg len header_size ≡ ended at
      ends =
          ap (λ m. walk (suc max_dns_msg_size) m len header_size) (sym at_name)
          ∙ walk-encode_name (suc max_dns_msg_size) query_header ls _ len header_size refl
              (omega arith) (omega (arith, length_payload)) ok

      asked : drop header_size (take (at + 4) msg) ≡ question
      asked =
          ap (λ m. drop header_size (take (at + 4) m)) (whole ∙ simp append_assoc refl)
          ∙ ap (drop header_size) (
              take-append_exact (query_header ++ question) (more ++ behind) (at + 4)
                (omega (arith, length-append {0} name (t1 ∷ t2 ∷ c1 ∷ c2 ∷ []))))

      made : make_reply ip msg at ≡ i1 ∷ i2 ∷ (reply_header ++ (question ++ answer ip))
      made =
          make_reply_lem ip msg at four (length-load_message payload stack size) (omega arith)
            (omega arith)
          ∙ ap (λ q. i1 ∷ i2 ∷ (reply_header ++ (q ++ answer ip))) asked

  -- A standard query that is a header and nothing else is answered all the same, and the four bytes
  -- between the header and the answer are what the stack held at that place of the buffer.
  pub bare_query_leaks :
      dns_server_process ip stack query_header
      ≡ sent (i1 ∷ i2 ∷ (reply_header ++ (take 4 (drop 12 stack) ++ answer ip)))
  unfolding dns_server_process is_query on_question walk
  bare_query_leaks = ground (
    arith,
    standard,
    make_reply_lem ip (load_message query_header stack) 12 four
        (length-load_message query_header stack size) (omega arith) (omega arith),
  )
