-- ===== src/Runtime/Tests.antt =====
-- src/runtime.rs: the driver over a counter that gives out its odd values.
use chrimp.Prelude.{List, Option, [], if◌then◌else◌, none, some, ℕ, ◌%◌, ◌+◌, ◌==◌, ◌∷◌}
use chrimp.Runtime.Drives.{Drives, drive-Drives}
use chrimp.Runtime.{Engine, drive}

abbrev counter : Engine ℕ ℕ
counter = record {
  delivery_done = λ e. e == 6;
  canceled = λ e. e == 100;
  advance = λ n e. e + n;
  take_output = λ e. (if e % 2 == 1 then some e else none, e);
  cancel = λ e. 100;
}

-- The sink keeps what it is given, and fails at five.
abbrev keep : ℕ → List ℕ → Option ℕ × List ℕ
keep event kept = (if event == 5 then some event else none, event ∷ kept)

-- Five is not taken: the driver stops there, within its budget of nine.
drive-Drives_example : Drives counter keep 9 0 [] (drive counter keep 9 0 [])
drive-Drives_example = drive-Drives counter keep 9 0 []
