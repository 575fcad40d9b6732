-- ===== src/Lgp/Input/Tests.antt =====
-- The pumps of src/lgp-compositor/input/input.c at concrete inputs.
use mahina_os.Prelude.{false, [], ◌∷◌, pos, arith, List}
use mahina_os.Lgp.Mouse.{Packet}
use mahina_os.Lgp.Session.Steps.{started}
use mahina_os.Lgp.Input.{Input, set_screen, Event, pump}
use mahina_os.Lgp.Input.Screen.{IsInput, set_screen-IsInput, pump-IsInput}

abbrev display : Input
display = set_screen 1024 768 false false

-- A move to the left with the left button down, and the shift key.
abbrev moves : List Packet
moves = (record { flags = 0x11; dx = 200; dy = 10 }) ∷ []

abbrev keys : List Event
keys = (record { type = 1; code = 42; value = pos 1 }) ∷ []

pump-IsInput_example : IsInput (pump moves keys display started).input
pump-IsInput_example =
    pump-IsInput moves keys display started
      (set_screen-IsInput 1024 768 false false (omega arith) (omega arith))
