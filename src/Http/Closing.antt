-- ===== src/Http/Closing.antt =====
-- wifi/access_point/picow_access_point.c, `tcp_server_sent`: when a connection that has been answered
-- is closed.
use robotic_car_p3e.Prelude.{
  ℕ, ◌+◌, ◌<◌, ◌≡◌, refl, ap, ◌∙◌, Bool, true, false, Option, none, some, List, [], ◌∷◌, leb, arith,
  ℤ, map, Bool-cases, inl, inr, if◌then◌else◌,
}
use robotic_car_p3e.Http.Connection.{
  Connection, Outcome, Event, sent, going_on, err_ok, tcp_close_client_connection, tcp_server_sent,
  happen, history,
}

-- The client acknowledges so many bytes, one after the other.
abbrev pub acknowledged : ℤ → List ℕ → List Event
acknowledged close_err lens = map (sent close_err) lens

abbrev pub total : List ℕ → ℕ
total [] = 0
total (x ∷ xs) = x + total xs

history-none : (gw : List ℕ) (led : Bool) (es : List Event) → history gw led es none ≡ (none, led)
unfolding history
history-none gw led [] = refl
history-none gw led (e ∷ es) = refl

abbrev counted : ℕ → Connection → Connection
counted len c = record c { sent_len = c.sent_len + len }

sent-last :
    (close_err : ℤ) (led : Bool) (len : ℕ) (c : Connection)
    → leb (c.header_len + c.result_len) (c.sent_len + len) ≡ true
    → tcp_server_sent close_err led len c ≡ tcp_close_client_connection close_err led [] err_ok
unfolding tcp_server_sent
sent-last close_err led len c h = rw h refl

sent-more :
    (close_err : ℤ) (led : Bool) (len : ℕ) (c : Connection)
    → leb (c.header_len + c.result_len) (c.sent_len + len) ≡ false
    → tcp_server_sent close_err led len c ≡ going_on led [] (counted len c)
unfolding tcp_server_sent
sent-more close_err led len c h = rw h refl

abbrev behind : List ℕ → ℤ → List ℕ → Outcome → Option Connection × Bool
behind gw close_err lens o = history gw o.led (acknowledged close_err lens) o.connection

abbrev verdict : Bool → Connection → ℕ → Option Connection × Bool
verdict led c k =
    if leb (c.header_len + c.result_len) k
    then (none, led)
    else (some (record c { sent_len = k }), led)

-- A connection with something written that is not yet acknowledged is closed by acknowledgements
-- exactly if they add up to what is missing; until then it is open and has counted them. The LED
-- stays as it is.
pub history-acknowledged :
    (close_err : ℤ) (gw : List ℕ) (led : Bool) (lens : List ℕ) (c : Connection)
    → c.sent_len < c.header_len + c.result_len
    → history gw led (acknowledged close_err lens) (some c) ≡ (
        if leb (c.header_len + c.result_len) (c.sent_len + total lens)
        then (none, led)
        else (some (record c { sent_len = c.sent_len + total lens }), led))
unfolding history happen tcp_close_client_connection
history-acknowledged close_err gw led [] c h = ground arith
history-acknowledged close_err gw led (x ∷ xs) c h =
    elim (Bool-cases (leb (c.header_len + c.result_len) (c.sent_len + x))) [
      | inl e ↦
          let all : leb (c.header_len + c.result_len) (c.sent_len + (x + total xs)) ≡ true =
            ground arith in
          ap (behind gw close_err xs) (sent-last close_err led x c e)
          ∙ history-none gw led (acknowledged close_err xs)
          ∙ rw all refl
      | inr e ↦
          let shift : c.sent_len + x + total xs ≡ c.sent_len + (x + total xs) = omega arith in
          ap (behind gw close_err xs) (sent-more close_err led x c e)
          ∙ history-acknowledged close_err gw led xs (counted x c) (ground arith)
          ∙ ap (verdict led c) shift
    ]
