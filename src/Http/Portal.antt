-- ===== src/Http/Portal.antt =====
-- wifi/access_point/picow_access_point.c, `main`: the servers of the access point together.
use robotic_car_p3e.Prelude.{
  ◌≤◌, write, ℕ, ◌+◌, ◌%◌, ◌≡◌, refl, sym, ap, ◌∙◌, Bool, true, false, ◌||◌, Option, none, some,
  List, [], ◌∷◌, ◌++◌, ◌==◌, if◌then◌else◌, length, take, drop, arith, ℤ, pos, negsuc, Bool-cases,
  inl, inr,
}
use robotic_car_p3e.Dhcp.Server as DhcpServer
use robotic_car_p3e.Dhcp.Options.{
  dhcpoffer, opt_msg_type, opt_server_id, opt_subnet_mask, opt_router, opt_dns, opt_ip_lease_time,
}
use robotic_car_p3e.Dhcp.Leases.{Lease, dhcps_base_ip}
use robotic_car_p3e.Dhcp.Search.{encode}
use robotic_car_p3e.Dhcp.Answers.{dhcp_server_process-Answers, sent-Names}
use robotic_car_p3e.Dns.Server as DnsServer
use robotic_car_p3e.Dns.Question.{dns_server_process-sent}
use robotic_car_p3e.Telemetry.Parse.{starts_with}
use robotic_car_p3e.Http.Request.{http_get, led_test, request_at, response_redirect}
use robotic_car_p3e.Http.Connection.{Connection, headers_size, going_on, tcp_server_recv}
use robotic_car_p3e.Http.Pages.{all_written}
use robotic_car_p3e.Http.Redirect.{tcp_server_recv-redirect}
use robotic_car_p3e.Http.Server.{
  Server, tcp_server_open, tcp_server_close, key_pressed_func, key_pressed_worker_func,
}

-- The gateway's address and its network mask.
abbrev pub gateway : List ℕ
gateway = 192 ∷ 168 ∷ 4 ∷ 1 ∷ []

abbrev pub mask : List ℕ
mask = 255 ∷ 255 ∷ 255 ∷ 0 ∷ []

-- What the calls of the start-up give: the control blocks, the results of the binds, and the
-- listening control block.
pub record Resources : Type 0 where
  pub dhcp_udp : Option ℕ
  pub dns_udp : Option ℕ
  pub dns_bind_err : ℕ
  pub tcp_pcb : Option ℕ
  pub tcp_bind_err : ℤ
  pub listener : Option ℕ

pub record AccessPoint : Type 0 where
  pub dhcp : DhcpServer.Server
  pub dns : DnsServer.Server
  pub http : Server

-- The state of the HTTP server at first; the address as `ipaddr_ntoa` writes it.
abbrev pub fresh_server : (List ℕ → List ℕ) → Server
fresh_server ipaddr_ntoa = record { server_pcb = none; complete = false; gw = ipaddr_ntoa gateway }

-- The start-up in `main`; `stack` is what the stack held where the DNS server's struct lies. Also
-- whether the HTTP server could be opened: if not, the program ends.
unfoldable pub start_up : (List ℕ → List ℕ) → DnsServer.Server → Resources → AccessPoint × Bool
unfolding tcp_server_open
start_up ipaddr_ntoa stack r =
    let (http, ok) =
      tcp_server_open r.tcp_pcb r.tcp_bind_err r.listener (fresh_server ipaddr_ntoa) in
    (
      record {
        dhcp = (DhcpServer.dhcp_server_init gateway mask r.dhcp_udp).0;
        dns = DnsServer.dns_server_init r.dns_udp r.dns_bind_err gateway stack;
        http = http;
      },
      ok,
    )

-- A press of a key: the work that it asks for is done before the next.
unfoldable pub press : ℤ → Server → Server
unfolding key_pressed_func key_pressed_worker_func
press key s = if key_pressed_func key then key_pressed_worker_func s else s

-- The keys that come while the loop of `main` waits for the end.
unfoldable pub serve : List ℤ → Server → Server
serve [] s = s
serve (key ∷ keys) s = let rest = serve keys (press key s) in if s.complete then s else rest

-- The end of `main`.
unfoldable pub shut_down : AccessPoint → AccessPoint
unfolding tcp_server_close
shut_down p = record {
  dhcp = (DhcpServer.dhcp_server_deinit p.dhcp).0;
  dns = (DnsServer.dns_server_deinit p.dns).0;
  http = tcp_server_close p.http;
}

-- What the start-up has the DHCP server hand out.
abbrev pub portal_options : ℕ → List (ℕ × List ℕ)
portal_options type =
    (opt_msg_type, type ∷ [])
    ∷ (opt_server_id, gateway)
    ∷ (opt_subnet_mask, mask)
    ∷ (opt_router, gateway)
    ∷ (opt_dns, gateway)
    ∷ (opt_ip_lease_time, 0 ∷ 1 ∷ 81 ∷ 128 ∷ [])
    ∷ []

start_up-gw :
    (ipaddr_ntoa : List ℕ → List ℕ) (stack : DnsServer.Server) (r : Resources)
    → (start_up ipaddr_ntoa stack r).0.http.gw ≡ ipaddr_ntoa gateway
unfolding start_up tcp_server_open
start_up-gw ipaddr_ntoa stack r = opened r.tcp_pcb r.listener
  where
    opened :
        (pcb listener : Option ℕ)
        → (tcp_server_open pcb r.tcp_bind_err listener (fresh_server ipaddr_ntoa)).0.gw
          ≡ ipaddr_ntoa gateway
    opened none listener = refl
    opened (some pcb) none = ground arith
    opened (some pcb) (some l) = ground arith

start_up-dns :
    (ipaddr_ntoa : List ℕ → List ℕ) (stack : DnsServer.Server) (r : Resources) (h : ℕ)
    → r.dns_udp ≡ some h
    → r.dns_bind_err ≡ 0
    → (start_up ipaddr_ntoa stack r).0.dns.ip ≡ gateway
unfolding start_up DnsServer.dns_server_init
start_up-dns ipaddr_ntoa stack r h p q = ground arith

-- A reply of the DHCP server: the client's message with an address next to the gateway's, and the
-- options.
abbrev pub portal_reply : List ℕ → ℕ → ℕ → List ℕ
portal_reply query type yi =
    dhcpoffer
      ∷ (take 15 (drop 1 query)
          ++ (192 ∷ 168 ∷ 4 ∷ (dhcps_base_ip + yi) % 256 ∷ take 220 (drop 20 query)))
    ++ encode (portal_options type)

-- The DHCP server of the access point, with whatever leases it has granted so far.
abbrev pub with_leases : List Lease → DhcpServer.Server → DhcpServer.Server
with_leases leases d = record d { lease = leases }

start_up-dhcp :
    (ipaddr_ntoa : List ℕ → List ℕ) (stack : DnsServer.Server) (r : Resources) (leases : List Lease)
    (ticks : ℕ → ℕ) (room payload reply : List ℕ)
    → length room ≡ DhcpServer.msg_size
    → (DhcpServer.dhcp_server_process
        (with_leases leases (start_up ipaddr_ntoa stack r).0.dhcp)
        ticks
        room
        payload).1
      ≡ DhcpServer.sent reply
    → (type : ℕ) × (yi : ℕ) × (reply ≡ portal_reply (DhcpServer.load_message payload room) type yi)
unfolding start_up DhcpServer.dhcp_server_init
start_up-dhcp ipaddr_ntoa stack r leases ticks room payload reply size sent =
    let d = with_leases leases (start_up ipaddr_ntoa stack r).0.dhcp in
    let n =
      sent-Names d (DhcpServer.load_message payload room) reply
        (DhcpServer.dhcp_server_process d ticks room payload)
        (dhcp_server_process-Answers d ticks room payload size refl refl) sent in
    (n.type, n.yi, n.bytes)

-- Once the access point is up and its DNS server has a control block and a port, all ways lead to
-- the gateway, 192.168.4.1. Every reply of the DHCP server, to whatever datagram and with whatever
-- leases, gives the client an address 192.168.4.x and names the gateway as router and as DNS server;
-- every reply of the DNS server, to whatever datagram, gives the gateway as the address; and a GET of
-- any path but the LED's, on whatever connection, is answered with a redirection to the gateway, in
-- the notation of `ipaddr_ntoa`, which has at most 15 characters, if lwIP takes what is written.
pub start_up-portal :
    (ipaddr_ntoa : List ℕ → List ℕ) (stack : DnsServer.Server) (r : Resources) (h : ℕ)
    (leases : List Lease) (ticks : ℕ → ℕ) (dhcp_room dhcp_payload dhcp_reply : List ℕ)
    (dns_room dns_payload dns_reply : List ℕ) (close_err : ℤ) (led : Bool) (c : Connection) (b : ℕ)
    (bs : List ℕ)
    → r.dns_udp ≡ some h
    → r.dns_bind_err ≡ 0
    → length dhcp_room ≡ DhcpServer.msg_size
    → (DhcpServer.dhcp_server_process
        (with_leases leases (start_up ipaddr_ntoa stack r).0.dhcp)
        ticks
        dhcp_room
        dhcp_payload).1
      ≡ DhcpServer.sent dhcp_reply
    → length dns_room ≡ DnsServer.max_dns_msg_size
    → DnsServer.dns_server_process (start_up ipaddr_ntoa stack r).0.dns.ip dns_room dns_payload
      ≡ DnsServer.sent dns_reply
    → length c.headers ≡ headers_size
    → length (ipaddr_ntoa gateway) ≤ 15
    → starts_with http_get (write c.headers 0 (take 127 (b ∷ bs))) ≡ true
    → starts_with led_test (drop request_at (write c.headers 0 (take 127 (b ∷ bs)))) ≡ false
    → let query = DnsServer.load_message dns_payload dns_room in
      ((type : ℕ) × (yi : ℕ) × (dhcp_reply
          ≡ portal_reply (DhcpServer.load_message dhcp_payload dhcp_room) type yi))
      × ((at : ℕ) × (dns_reply
            ≡ take 2 query
              ++ (DnsServer.reply_header
                  ++ (drop DnsServer.header_size (take (at + 4) query)
                      ++ DnsServer.answer gateway))))
      × ((c' : Connection) × (tcp_server_recv
              (all_written close_err)
              (start_up ipaddr_ntoa stack r).0.http.gw
              led
              (some (b ∷ bs))
              c
            ≡ going_on led (response_redirect (ipaddr_ntoa gateway) ∷ []) c'))
start_up-portal ipaddr_ntoa stack r h leases ticks dhcp_room dhcp_payload dhcp_reply dns_room
      dns_payload dns_reply close_err led c b bs p q dhcp_size dhcp_sent dns_size dns_sent size
      short get other =
    let to_gateway = start_up-dns ipaddr_ntoa stack r h p q in
    let (at, low, high, made) =
      dns_server_process-sent gateway dns_room dns_payload dns_reply refl dns_size (
        ap (λ ip. DnsServer.dns_server_process ip dns_room dns_payload) (sym to_gateway)
        ∙ dns_sent) in
    let (c', redirected, none_sent, head, body) =
      tcp_server_recv-redirect close_err (ipaddr_ntoa gateway) led c b bs size short get other in
    (
      start_up-dhcp ipaddr_ntoa stack r leases ticks dhcp_room dhcp_payload dhcp_reply dhcp_size
          dhcp_sent,
      (at, made),
      (
        c',
        ap (λ gw. tcp_server_recv (all_written close_err) gw led (some (b ∷ bs)) c)
              (start_up-gw ipaddr_ntoa stack r)
            ∙ redirected,
      ),
    )

abbrev pub is_d : ℤ → Bool
is_d (pos key) = key == b'd' || key == b'D'
is_d (negsuc n) = false

abbrev pub any_d : List ℤ → Bool
any_d [] = false
any_d (key ∷ keys) = is_d key || any_d keys

abbrev finished : Server → Server
finished s = record s { complete = true }

press-d : (key : ℤ) (s : Server) → is_d key ≡ true → press key s ≡ finished s
unfolding press
press-d (pos key) s h = rw h refl
press-d (negsuc n) s h = cc

press-other : (key : ℤ) (s : Server) → is_d key ≡ false → press key s ≡ s
unfolding press
press-other (pos key) s h = rw h refl
press-other (negsuc n) s h = refl

serve-done : (keys : List ℤ) (s : Server) → s.complete ≡ true → (serve keys s).complete ≡ true
unfolding serve
serve-done [] s h = h
serve-done (key ∷ keys) s h = ground arith

-- The loop of `main` is left exactly if a `d` is pressed, small or capital.
pub serve-complete :
    (keys : List ℤ) (s : Server) → s.complete ≡ false → (serve keys s).complete ≡ any_d keys
unfolding serve
serve-complete [] s h = h
serve-complete (key ∷ keys) s h = elim (Bool-cases (is_d key)) [
  | inl e ↦
      let after =
        ap (λ t. (serve keys t).complete) (press-d key s e) ∙ serve-done keys (finished s) refl in
      rw e (ground (arith, after))
  | inr e ↦
      let after =
        ap (λ t. (serve keys t).complete) (press-other key s e) ∙ serve-complete keys s h in
      rw e (ground (arith, after))
]
