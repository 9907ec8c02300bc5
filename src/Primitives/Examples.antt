-- ===== src/Primitives/Examples.antt =====
-- Integers and messages on small inputs, and the theorems at inputs that meet their hypotheses.
use dumpulator.Prelude.{
  ◌+◌, ◌*◌, ◌≡◌, refl, sym, true, List, [], ◌∷◌, length, map, arith, ltb, if◌then◌else◌,
}
use mathlib.Core.List.{append-nil}
use dumpulator.Outcome.{ok}
use dumpulator.Prelude.Int.{pos, negsuc}
use dumpulator.Primitives.Integers.{char, sign_bit, masked, negated, signed_value, signed}
use dumpulator.Primitives.Wrapping.{twos_complement, succ, signed-twos_complement}
use dumpulator.Primitives.Control.{DeviceControlData}
use dumpulator.Primitives.Fields.{Field, Fits, message, value_of, read_fields, read_fields-message}

-- `CHAR(-1)` is 0.
char_of_minus_one : signed char (negsuc 0) ≡ pos 0
unfolding signed masked sign_bit signed_value negated
char_of_minus_one = refl

signed-twos_complement_example : signed char (negsuc 0) ≡ (
    let low = masked (2 * sign_bit char) (negsuc 0) in
    if ltb low (sign_bit char) then twos_complement char low else succ (twos_complement char low))
signed-twos_complement_example = signed-twos_complement char (negsuc 0)

abbrev fields : List Field
fields = record { size = 8; value = 0x100 } ∷ record { size = 4; value = 1 } ∷ []

control : DeviceControlData
unfolding message
control = record { x64 = true; code = 0x500016; bytes = message fields; index = 0 }

fields-Fits : Fits fields
unfolding Fits
fields-Fits = (omega arith, (omega arith, tt))

read_fields-message_example :
    read_fields fields control
    ≡ (ok (map value_of fields), record control { index = control.index + length (message fields) })
unfolding control
read_fields-message_example =
    read_fields-message fields [] [] control (sym (append-nil (message fields))) refl fields-Fits
