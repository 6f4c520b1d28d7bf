-- ===== src/Console/Tests.antt =====
-- Runs of the terminal.
use robotic_car_p3e.Prelude.{
  ℕ, ◌≡◌, refl, false, true, Option, none, some, List, [], ◌∷◌, codes, take, replicate,
}
use robotic_car_p3e.Console.Terminal.{Input, fresh_terminal, show_messages, run, init_wifi}
use robotic_car_p3e.Console.Lines.{lines_behind}
use robotic_car_p3e.Console.Stored.{received, listing, run-stored}

-- The definitions that a run computes with.
runs : ℕ
unfolding show_messages run init_wifi
runs = 0

abbrev typed : Option ℕ → Input
typed ch = record {
  reset_now = false;
  reset_still = false;
  display_now = false;
  display_still = false;
  ch = ch;
}

abbrev inputs : List Input
inputs =
    typed (some b'h') ∷ typed (some b'i') ∷ typed none ∷ typed (some b'\n') ∷ typed (some b'x') ∷ []

abbrev stack : List ℕ
stack = replicate 1024 170

lines_test : lines_behind [] (codes "ab\n\nc") ≡ codes "ab" ∷ [] ∷ codes "c" ∷ []
lines_test = refl

wifi_test : init_wifi false true ≡ false
unfolding runs
wifi_test = refl

stored_text_example :
    show_messages (run inputs (fresh_terminal stack) []).0 ≡ listing (take 1023 (received inputs))
stored_text_example = run-stored inputs stack refl (refl, (refl, (refl, (refl, (refl, tt)))))
