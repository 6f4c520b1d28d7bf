-- ===== src/Beacon/Packets.antt =====
-- wifi/udp_beacon/picow_udp_beacon.c: the packets that `run_udp_beacon` sends. What `udp_sendto`
-- returns is an argument; the delays are left out.
use robotic_car_p3e.Prelude.{
  ℕ, ◌+◌, ◌-◌, List, [], ◌∷◌, if◌then◌else◌, take, replicate, write, ℤ, pos, is_zero,
}
use robotic_car_p3e.Telemetry.Decimal.{print_int}

abbrev pub beacon_msg_len_max : ℕ
beacon_msg_len_max = 127

-- The payload: zeros, and `snprintf` of the counter, which leaves room for a zero byte.
unfoldable pub payload : ℕ → List ℕ
payload counter =
    write (replicate (beacon_msg_len_max + 1) 0) 0
      (take (beacon_msg_len_max - 1) (print_int (pos counter) (b'\n' ∷ [])))

-- The packets that are sent in rounds of the loop, with what `udp_sendto` returns in each. The
-- counter goes on only behind a packet that is sent.
unfoldable pub run_udp_beacon : List ℤ → ℕ → List (List ℕ)
run_udp_beacon [] counter = []
run_udp_beacon (er ∷ ers) counter =
    let sent = payload counter ∷ run_udp_beacon ers (counter + 1) in
    let failed = run_udp_beacon ers counter in if is_zero er then sent else failed
