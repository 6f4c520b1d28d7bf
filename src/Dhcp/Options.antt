-- ===== src/Dhcp/Options.antt =====
-- wifi/access_point/dhcpserver/dhcpserver.c: reading and writing DHCP options in a message buffer.
use robotic_car_p3e.Prelude.{
  write, true, false, ℕ, zero, suc, ◌+◌, ◌/◌, ◌%◌, ◌^◌, Option, none, some, List, [], ◌∷◌, length,
  ltb, ◌==◌, get_elem?, set,
}

abbrev pub dhcpdiscover : ℕ
dhcpdiscover = 1

abbrev pub dhcpoffer : ℕ
dhcpoffer = 2

abbrev pub dhcprequest : ℕ
dhcprequest = 3

abbrev pub dhcpack : ℕ
dhcpack = 5

abbrev pub opt_subnet_mask : ℕ
opt_subnet_mask = 1

abbrev pub opt_router : ℕ
opt_router = 3

abbrev pub opt_dns : ℕ
opt_dns = 6

abbrev pub opt_requested_ip : ℕ
opt_requested_ip = 50

abbrev pub opt_ip_lease_time : ℕ
opt_ip_lease_time = 51

abbrev pub opt_msg_type : ℕ
opt_msg_type = 53

abbrev pub opt_server_id : ℕ
opt_server_id = 54

abbrev pub opt_end : ℕ
opt_end = 255

-- The bound of the loop of `opt_find`.
abbrev pub opt_bytes : ℕ
opt_bytes = 308

-- What a search comes to. `overrun` is a read outside the message, which C leaves undefined;
-- `out_of_fuel` does not occur (`Dhcp/Search`).
pub data Find : Type 0 where
  found : ℕ → Find
  null overrun out_of_fuel : Find

-- The step from the option at `i`, once the byte there is known to be neither the end nor `cmd`.
abbrev pub next_option : List ℕ → ℕ → Option ℕ
next_option opt i = elim (get_elem? opt (i + 1)) [ none ↦ none | some n ↦ some (i + (2 + n)) ]

-- The loop of `opt_find` from index `i` on.
unfoldable pub find_at : ℕ → List ℕ → ℕ → ℕ → Find
find_at zero opt cmd i = out_of_fuel
find_at (suc fuel) opt cmd i = elim (ltb i opt_bytes) [
  | false ↦ null
  | true ↦ elim (get_elem? opt i) [
    | none ↦ overrun
    | some o ↦ elim (o == opt_end) [
      | true ↦ null
      | false ↦ elim (o == cmd) [
        | true ↦ found i
        | false ↦ elim (next_option opt i) [ none ↦ overrun | some j ↦ find_at fuel opt cmd j ]
      ]
    ]
  ]
]

-- An index grows by two at least in every round, so this fuel is more than enough.
unfoldable pub opt_find : List ℕ → ℕ → Find
unfolding find_at
opt_find opt cmd = find_at (suc opt_bytes) opt cmd 0

-- A buffer and the position `opt` in it.
pub record Cursor : Type 0 where
  pub buf : List ℕ
  pub at : ℕ

unfoldable pub opt_write_n : ℕ → List ℕ → Cursor → Cursor
opt_write_n cmd bytes c = record {
  buf = write c.buf c.at (cmd ∷ length bytes % 256 ∷ bytes);
  at = c.at + 2 + length bytes;
}

unfoldable pub opt_write_u8 : ℕ → ℕ → Cursor → Cursor
opt_write_u8 cmd val c = record { buf = write c.buf c.at (cmd ∷ 1 ∷ val ∷ []); at = c.at + 3 }

unfoldable pub opt_write_u32 : ℕ → ℕ → Cursor → Cursor
opt_write_u32 cmd val c = record {
  buf =
      write c.buf c.at
        (cmd ∷ 4 ∷ val / 2 ^ 24 % 256 ∷ val / 2 ^ 16 % 256 ∷ val / 2 ^ 8 % 256 ∷ val % 256 ∷ []);
  at = c.at + 6;
}

-- `*opt++ = b`.
unfoldable pub put_byte : ℕ → Cursor → Cursor
put_byte b c = record { buf = set c.buf c.at b; at = c.at + 1 }
