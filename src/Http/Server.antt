-- ===== src/Http/Server.antt =====
-- wifi/access_point/picow_access_point.c: the opening and closing of the HTTP server, and the key that
-- ends it.
use robotic_car_p3e.Prelude.{
  ℕ, Bool, true, false, Option, none, some, List, ◌==◌, ◌||◌, if◌then◌else◌, ℤ, pos, negsuc,
  is_zero,
}

-- `TCP_SERVER_T`; the gateway's address as its text.
pub record Server : Type 0 where
  pub server_pcb : Option ℕ
  pub complete : Bool
  pub gw : List ℕ

-- `tcp_server_open` behind `tcp_bind`: what `tcp_listen_with_backlog` gives.
abbrev pub listening : Option ℕ → Server → Server × Bool
listening none s = (record s { server_pcb = none }, false)
listening (some pcb) s = (record s { server_pcb = some pcb }, true)

-- `tcp_server_open`: what `tcp_new_ip_type`, `tcp_bind` and `tcp_listen_with_backlog` give.
unfoldable pub tcp_server_open : Option ℕ → ℤ → Option ℕ → Server → Server × Bool
tcp_server_open none bind_err listener s = (s, false)
tcp_server_open (some pcb) bind_err listener s =
    if is_zero bind_err then listening listener s else (s, false)

unfoldable pub tcp_server_close : Server → Server
tcp_server_close s = record s { server_pcb = none }

-- `key_pressed_func`: is the work to be done? `getchar_timeout_us` gives a character or an error.
unfoldable pub key_pressed_func : ℤ → Bool
key_pressed_func (pos key) = key == b'd' || key == b'D'
key_pressed_func (negsuc n) = false

unfoldable pub key_pressed_worker_func : Server → Server
key_pressed_worker_func s = record s { complete = true }
