-- ===== src/Console/Terminal.antt =====
-- wifi/freertos/ping/picow_freertos_ping_j.c: the Wi-Fi set-up and the loop of `run_program`. The
-- buttons and what the UART gives are arguments.
use robotic_car_p3e.Prelude.{
  ℕ, zero, suc, ◌+◌, ◌-◌, ◌%◌, Bool, true, false, ◌&&◌, Option, none, some, List, [], ◌∷◌, ◌++◌,
  ◌==◌, ltb, if◌then◌else◌, codes, get_or, set, take, drop,
}
use robotic_car_p3e.Telemetry.Parse.{c_string}

abbrev pub buffer_size : ℕ
buffer_size = 1024

-- `init_wifi`: did `cyw43_arch_init` and the connection fail?
unfoldable pub init_wifi : Bool → Bool → Bool
init_wifi init_failed connect_failed =
    if init_failed then false else if connect_failed then false else true

-- The locals of `run_program`.
pub record Terminal : Type 0 where
  pub message_buffer : List ℕ
  pub buffer_index : ℕ
  pub prompt_needed : Bool

-- The beginning of `run_program`; `stack` is what the stack held in the buffer.
abbrev pub fresh_terminal : List ℕ → Terminal
fresh_terminal stack = record { message_buffer = stack; buffer_index = 0; prompt_needed = false }

-- A printed line, without its end.
abbrev pub Line : Type 0
Line = List ℕ

abbrev pub prompt : Line
prompt = codes "Pico is ready to receive data... "

-- `%.*s`: so many characters from a position on, fewer if a zero byte comes before.
abbrev pub slice : List ℕ → ℕ → ℕ → Line
slice buf start count = c_string (take count (drop start buf))

-- What is printed behind the last end of a line.
abbrev pub show_end : List ℕ → ℕ → ℕ → List Line
show_end buf start count = if ltb start count then slice buf start (count - start) ∷ [] else []

-- The loop over the buffer, with so many rounds left at position `i`.
unfoldable pub show_from : ℕ → List ℕ → ℕ → ℕ → List Line
show_from zero buf start i = show_end buf start i
show_from (suc left) buf start i =
    let line = slice buf start (i - start) ∷ show_from left buf (i + 1) (i + 1) in
    let on = show_from left buf start (i + 1) in if get_or buf i 0 == b'\n' then line else on

-- The display button's part.
unfoldable pub show_messages : Terminal → List Line
unfolding show_from
show_messages t =
    codes "Stored Messages:"
    ∷ (if ltb 0 t.buffer_index
        then show_from t.buffer_index t.message_buffer 0 0
        else codes "No messages stored." ∷ [])

-- A received character, which is stored while there is room.
unfoldable pub receive : ℕ → Terminal → Terminal
receive ch t =
    let buf = set t.message_buffer t.buffer_index (ch % 256) in
    if ltb t.buffer_index (buffer_size - 1)
    then record {
      message_buffer = set buf (t.buffer_index + 1) 0;
      buffer_index = t.buffer_index + 1;
      prompt_needed = true;
    }
    else record t { prompt_needed = true }

-- The end of a round: what the UART gives, with no character for a timeout.
unfoldable pub take_in : Option ℕ → Terminal → Terminal × List Line
unfolding receive
take_in none t =
    if t.prompt_needed then (record t { prompt_needed = false }, prompt ∷ []) else (t, [])
take_in (some ch) t = (receive ch t, (codes "Received byte: " ++ (ch % 256) ∷ []) ∷ [])

-- What a round finds: whether a button is pressed, at first and behind the delay, and a character.
pub record Input : Type 0 where
  pub reset_now : Bool
  pub reset_still : Bool
  pub display_now : Bool
  pub display_still : Bool
  pub ch : Option ℕ

-- A round of the loop: a reset, or the new state with what is printed.
pub data Round : Type 0 where
  restarted : Round
  went_on : Terminal → List Line → Round

abbrev pub with_shown : List Line → Terminal × List Line → Round
with_shown shown (t, out) = went_on t (shown ++ out)

unfoldable pub round : Input → Terminal → Round
unfolding show_messages take_in
round i t =
    if i.reset_now && i.reset_still
    then restarted
    else with_shown (if i.display_now && i.display_still then show_messages t else [])
        (take_in i.ch t)

-- The loop of `run_program`. A reset calls `run_program` anew, on the same stack, and does not come
-- back: the inputs that are left belong to the new call.
unfoldable pub run : List Input → Terminal → List Line → Terminal × List Line × Option (List Input)
run [] t out = (t, out, none)
run (i ∷ is) t out = elim (round i t) [
  | restarted ↦ (t, out ++ codes "Button pressed, performing soft reset..." ∷ [], some is)
  | went_on t' more ↦ run is t' (out ++ more)
]
