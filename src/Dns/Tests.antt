-- ===== src/Dns/Tests.antt =====
-- Datagrams to the DNS server, and its answers.
use robotic_car_p3e.Prelude.{
  ℕ, ◌+◌, ◌≡◌, ◌≤◌, refl, true, negsuc, List, [], ◌∷◌, ◌++◌, arith, take, drop, replicate, codes,
}
use robotic_car_p3e.Dns.Server.{
  walk, answer, reply_header, make_reply, on_question, sent, dns_server_process, is_query,
  header_size, load_message,
}
use robotic_car_p3e.Dns.Question.{dns_server_process-sent}
use robotic_car_p3e.Dns.Sockets.{send_reply}
use robotic_car_p3e.Dns.Sending.{Serves, dns_server_process-Serves}
use robotic_car_p3e.Dns.Names.{question_of, dns_server_process-query}

-- The definitions that a run computes with.
runs : ℕ
unfolding walk make_reply on_question dns_server_process is_query
runs = 0

abbrev server_ip : List ℕ
server_ip = 192 ∷ 168 ∷ 4 ∷ 1 ∷ []

abbrev garbage : List ℕ
garbage = replicate 300 170

-- The header of a query for recursion with one question, and the question for `pico.local`.
abbrev header : List ℕ
header = 18 ∷ 52 ∷ 1 ∷ 0 ∷ 0 ∷ 1 ∷ 0 ∷ 0 ∷ 0 ∷ 0 ∷ 0 ∷ 0 ∷ []

abbrev labels : List (List ℕ)
labels = codes "pico" ∷ codes "local" ∷ []

abbrev query : List ℕ
query = header ++ (question_of labels 0 1 0 1 ++ [])

abbrev query_reply : List ℕ
query_reply = 18 ∷ 52 ∷ (reply_header ++ (question_of labels 0 1 0 1 ++ answer server_ip))

query_example : dns_server_process server_ip garbage query ≡ sent query_reply
unfolding runs
query_example =
    dns_server_process-query 18 52 1 0 0 1 0 0 0 0 0 0 server_ip garbage refl refl refl labels 0 1 0
      1 [] (omega arith, omega arith, (omega arith, omega arith, tt)) (omega arith) (omega arith)

sent_example :
    (at : ℕ) × (header_size ≤ at)
    × (at ≤ 267)
    × (query_reply
        ≡ take 2 (load_message query garbage)
          ++ (reply_header
              ++ (drop header_size (take (at + 4) (load_message query garbage))
                  ++ answer server_ip)))
unfolding runs
sent_example = dns_server_process-sent server_ip garbage query query_reply refl refl refl

-- Also where the sending fails.
whole_reply_example :
    let reply = dns_server_process server_ip garbage query in
    Serves true
      (192 ∷ 168 ∷ 4 ∷ 16 ∷ [])
      49152
      reply
      (send_reply true (negsuc 3) (192 ∷ 168 ∷ 4 ∷ 16 ∷ []) 49152 reply)
whole_reply_example =
    dns_server_process-Serves server_ip garbage query refl refl true (negsuc 3)
      (192 ∷ 168 ∷ 4 ∷ 16 ∷ []) 49152
