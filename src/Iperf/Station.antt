-- ===== src/Iperf/Station.antt =====
-- wifi/iperf/picow_iperf.c: `main`, with the LED and the key that ends it. The link's status is the
-- driver's, a function of whether the station mode is on and of what the air gives.
use robotic_car_p3e.Prelude.{
  ℕ, ◌+◌, Bool, true, false, not, ◌||◌, List, [], ◌∷◌, ltb, ◌==◌, if◌then◌else◌, ℤ, pos, negsuc,
  is_zero,
}

-- `make_timeout_time_ms(1000)`, in microseconds.
abbrev pub led_interval_us : ℕ
led_interval_us = 1000000

-- The Wi-Fi driver, and the static variables of the loop.
pub record Station : Type 0 where
  pub driver_up : Bool
  pub sta_mode : Bool
  pub led_on : Bool
  pub led_time : ℕ

abbrev pub fresh_station : Station
fresh_station = record { driver_up = false; sta_mode = false; led_on = true; led_time = 0 }

-- `key_pressed_func`: is the work to be done? `getchar_timeout_us` gives a character or an error.
unfoldable pub key_pressed_func : ℤ → Bool
key_pressed_func (pos key) = key == b'd' || key == b'D'
key_pressed_func (negsuc n) = false

unfoldable pub key_pressed_worker_func : Station → Station
key_pressed_worker_func s = record s { sta_mode = false }

-- Keys that are pressed one behind the other.
unfoldable pub press_all : List ℤ → Station → Station
unfolding key_pressed_func key_pressed_worker_func
press_all [] s = s
press_all (k ∷ ks) s = press_all ks (if key_pressed_func k then key_pressed_worker_func s else s)

-- A round of the loop: what the link's status depends on, the time as it is read first and, behind
-- the setting of the LED, later, whether `cyw43_gpio_get` gives what the LED shows, and the keys that
-- are pressed while the loop sleeps.
pub record Round : Type 0 where
  pub air : ℕ
  pub now : ℕ
  pub later : ℕ
  pub reads_back : Bool
  pub keys : List ℤ

-- A call of `cyw43_gpio_set`.
pub record Write : Type 0 where
  pub time : ℕ
  pub value : Bool

-- How a run ends, if it does: `main` returns, or an `assert` fails.
pub data Ending : Type 0 where
  running asserted : Ending
  returned : ℕ → Ending

pub record Run : Type 0 where
  pub writes : List Write
  pub station : Station
  pub ending : Ending

abbrev pub with_write : Write → Run → Run
with_write w r = record r { writes = w ∷ r.writes }

abbrev pub inverted : ℕ → Station → Station
inverted time s = record s { led_on = not s.led_on; led_time = time + led_interval_us }

module _ (link_down : Bool → ℕ → Bool) where
  -- The loop of `main`. Where the LED is not read back, the variable that is compared keeps the
  -- opposite of its value.
  unfoldable pub loop : List Round → Station → Run
  unfolding press_all
  loop [] s = record { writes = []; station = s; ending = running }
  loop (r ∷ rs) s =
      let lit = inverted r.later s in
      let w : Write = record { time = r.later; value = lit.led_on } in
      let dark = loop rs (press_all r.keys s) in
      let blinked = with_write w (loop rs (press_all r.keys lit)) in
      let failed : Run = record { writes = w ∷ []; station = lit; ending = asserted } in
      let ended : Run = record {
        writes = [];
        station = record s { driver_up = false };
        ending = returned 0;
      } in
      if link_down s.sta_mode r.air
      then ended
      else if ltb s.led_time r.now
      then if r.reads_back then blinked else failed
      else dark

  -- `main`, given what `cyw43_arch_init` and `cyw43_arch_wifi_connect_timeout_ms` return, and the keys
  -- that are pressed while it connects.
  unfoldable pub main : ℤ → ℤ → List ℤ → List Round → Run
  unfolding loop press_all
  main init_err connect_err keys rs =
      let enabled = press_all keys (record fresh_station { driver_up = true; sta_mode = true }) in
      if is_zero init_err
      then if is_zero connect_err
        then loop rs enabled
        else record { writes = []; station = enabled; ending = returned 1 }
      else record { writes = []; station = fresh_station; ending = returned 1 }
