-- ===== src/Http/Tests.antt =====
-- Requests to the HTTP server of the access point.
use robotic_car_p3e.Prelude.{
  ℕ, ◌+◌, ◌≡◌, refl, true, false, some, none, List, [], ◌∷◌, ◌++◌, pos, codes, leb, if◌then◌else◌,
  length, drop, take, replicate, arith,
}
use robotic_car_p3e.Telemetry.Decimal.{print_int, print_ℕ}
use robotic_car_p3e.Http.Request.{response_headers, response_redirect, led_body}
use robotic_car_p3e.Http.Connection.{
  Connection, received, sent, fresh_connection, going_on, tcp_server_recv, history, err_ok,
}
use robotic_car_p3e.Http.Pages.{
  led_request, led_answer, page_head, all_written, served, tcp_server_recv-led,
}
use robotic_car_p3e.Http.Redirect.{tcp_server_recv-redirect}
use robotic_car_p3e.Http.Histories.{AllValid, history-AllValid}
use robotic_car_p3e.Http.Portal.{gateway, Resources, start_up, portal_reply, start_up-portal}
use robotic_car_p3e.Dhcp.Server as DhcpServer
use robotic_car_p3e.Dhcp.Options.{
  dhcpoffer, find_at, opt_find, opt_write_n, opt_write_u8, opt_write_u32, put_byte,
}
use robotic_car_p3e.Dhcp.Leases.{no_leases, discover, choose_lease, pass_lease, is_expired}
use robotic_car_p3e.Dns.Server as DnsServer
use robotic_car_p3e.Http.Closing.{acknowledged, total, history-acknowledged}

-- The definitions that a run computes with.
runs : ℕ
unfolding print_ℕ print_int response_headers response_redirect led_body tcp_server_recv
runs = 0

abbrev gateway_text : List ℕ
gateway_text = codes "192.168.4.1"

abbrev rest : List ℕ
rest = codes "HTTP/1.1\r\nHost: 192.168.4.1\r\n\r\n"

abbrev home : List ℕ
home = codes "GET / HTTP/1.1\r\n\r\n"

abbrev fresh : Connection
fresh = fresh_connection 1

led_example :
    (c' : Connection) × (tcp_server_recv
        (all_written err_ok)
        gateway_text
        false
        (some (led_request (print_int (pos 1) []) rest))
        fresh
      ≡ going_on true (led_answer true) c')
    × (c'.sent_len ≡ 0)
    × (c'.header_len ≡ length (page_head true))
    × (c'.result_len ≡ length (led_body true))
unfolding runs
led_example =
    tcp_server_recv-led err_ok (pos 1) gateway_text false fresh rest refl refl (omega arith)

redirect_example :
    (c' : Connection) × (tcp_server_recv (all_written err_ok) gateway_text true (some home) fresh
      ≡ going_on true (response_redirect gateway_text ∷ []) c')
    × (c'.sent_len ≡ 0)
    × (c'.header_len ≡ length (response_redirect gateway_text))
    × (c'.result_len ≡ 0)
redirect_example =
    tcp_server_recv-redirect err_ok gateway_text true fresh b'G' (drop 1 home) refl (omega arith)
      refl refl

valid_example :
    AllValid
      (history gateway_text false
        (received (all_written err_ok) (some home) ∷ sent err_ok 40 ∷ [])
        (some (fresh_connection 1))).0
valid_example =
    history-AllValid gateway_text false
      (received (all_written err_ok) (some home) ∷ sent err_ok 40 ∷ []) 1 (omega arith)

abbrev answered : Connection
answered = served (codes "head") (codes "page") fresh

closed_example : history gateway_text true (acknowledged err_ok (3 ∷ 5 ∷ [])) (some answered) ≡ (
    if leb (answered.header_len + answered.result_len) (answered.sent_len + total (3 ∷ 5 ∷ []))
    then (none, true)
    else (some (record answered { sent_len = answered.sent_len + total (3 ∷ 5 ∷ []) }), true))
closed_example = history-acknowledged err_ok gateway_text true (3 ∷ 5 ∷ []) answered (omega arith)

-- Only the start-up's own address is ever written.
abbrev write_address : List ℕ → List ℕ
write_address bytes = gateway_text

abbrev resources : Resources
resources = record {
  dhcp_udp = some 1;
  dns_udp = some 2;
  dns_bind_err = 0;
  tcp_pcb = some 3;
  tcp_bind_err = err_ok;
  listener = some 4;
}

abbrev dns_stack : DnsServer.Server
dns_stack = record { udp = none; ip = [] }

abbrev garbage : List ℕ
garbage = replicate 300 170

abbrev zeros : List ℕ
zeros = replicate 548 0

-- A query for the name `a`.
abbrev query : List ℕ
query = 18 ∷ 52 ∷ 1 ∷ 0 ∷ 0 ∷ 1 ∷ 0 ∷ 0 ∷ 0 ∷ 0 ∷ 0 ∷ 0 ∷ 1 ∷ b'a' ∷ 0 ∷ 0 ∷ 1 ∷ 0 ∷ 1 ∷ []

abbrev query_reply : List ℕ
query_reply =
    18
    ∷ 52
    ∷ (DnsServer.reply_header ++ (1 ∷ b'a' ∷ 0 ∷ 0 ∷ 1 ∷ 0 ∷ 1 ∷ [] ++ DnsServer.answer gateway))

-- A discover, and the offer of the first address.
abbrev ask : List ℕ
ask = replicate 28 0 ++ (1 ∷ 2 ∷ 3 ∷ 4 ∷ 5 ∷ 6 ∷ [] ++ (replicate 206 0 ++ 53 ∷ 1 ∷ 1 ∷ 255 ∷ []))

abbrev offer : List ℕ
offer = portal_reply (DhcpServer.load_message ask zeros) dhcpoffer 0

portal_example :
    let msg = DnsServer.load_message query garbage in
    ((type : ℕ) × (yi : ℕ) × (offer ≡ portal_reply (DhcpServer.load_message ask zeros) type yi))
    × ((at : ℕ) × (query_reply
          ≡ take 2 msg
            ++ (DnsServer.reply_header
                ++ (drop DnsServer.header_size (take (at + 4) msg) ++ DnsServer.answer gateway))))
    × ((c' : Connection) × (tcp_server_recv
            (all_written err_ok)
            (start_up write_address dns_stack resources).0.http.gw
            true
            (some home)
            fresh
          ≡ going_on true (response_redirect (write_address gateway) ∷ []) c'))
unfolding start_up DnsServer.dns_server_init DnsServer.dns_server_process DnsServer.is_query
    DnsServer.walk DnsServer.on_question DnsServer.make_reply DhcpServer.dhcp_server_init
    DhcpServer.dhcp_server_process DhcpServer.on_message DhcpServer.on_typed DhcpServer.on_type
    DhcpServer.on_discover DhcpServer.prepare DhcpServer.make_reply DhcpServer.finish_reply find_at
    opt_find opt_write_n opt_write_u8 opt_write_u32 put_byte discover choose_lease pass_lease
    is_expired
portal_example =
    start_up-portal write_address dns_stack resources 2 no_leases (λ k. 5000) zeros ask offer
      garbage query query_reply err_ok true fresh b'G' (drop 1 home) refl refl refl refl refl refl
      refl (omega arith) refl refl
