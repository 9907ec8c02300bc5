-- ===== src/Primitives/Fields.antt =====
-- `DeviceControlData` reads the numbers that a message was made of.
use dumpulator.Prelude.{
  drop-take, ℕ, zero, suc, ◌+◌, ◌/◌, ◌%◌, ◌^◌, ◌≤◌, ◌<◌, ◌≡◌, refl, sym, ◌∙◌, ap, true, List, [],
  ◌∷◌, ◌++◌, length, take, drop, map, leb, Bool-cases, inl, inr, if◌then◌else◌, ◌==◌, arith,
  take-append, drop-append, length-append, length-take, length-drop,
}
use mathlib.Core.List.{append_assoc}
use dumpulator.Outcome.{assertion_error, ok, raise, Action, pure, ◌>>=◌}
use dumpulator.Primitives.Control.{DeviceControlData, unpack, read, skip, read_number}

-- The `count` bytes of a number, the lowest first.
unfoldable pub pack : (count value : ℕ) → List ℕ
pack zero value = []
pack (suc count) value = value % 256 ∷ pack count (value / 256)

pub length-pack : (count value : ℕ) → length (pack count value) ≡ count
unfolding pack
length-pack zero value = refl
length-pack (suc count) value = omega (arith, length-pack count (value / 256))

pub unpack-pack : (count value : ℕ) → value < 256 ^ count → unpack (pack count value) ≡ value
unfolding pack unpack
unpack-pack zero value h = omega arith
unpack-pack (suc count) value h =
    let smaller : value / 256 < 256 ^ count = omega arith in
    omega (arith, unpack-pack count (value / 256) smaller)

-- `read` of bytes that are there returns that many and moves past them; of more than are left it raises
-- `AssertionError` and does not move. `skip` is the same without the bytes.
pub read-skip :
    (size : ℕ) (c : DeviceControlData)
    → let fits = leb (c.index + size) (length c.bytes) in
      let moved = record c { index = c.index + size } in
      (read size c ≡ (
        if fits
        then (ok (take size (drop c.index c.bytes)), moved)
        else (raise assertion_error, c)))
      × (skip size c ≡ (if fits then (ok tt, moved) else (raise assertion_error, c)))
unfolding read skip
read-skip size c = elim (Bool-cases (leb (c.index + size) (length c.bytes))) [
  | inl fits ↦
      let whole : (length (take size (drop c.index c.bytes)) == size) ≡ true =
        ground
          (arith, length-take size (drop c.index c.bytes), length-drop c.index c.bytes, fits) in
      rw (fits, drop-take c.index size c.bytes, whole) (refl, refl)
  | inr over ↦ rw over (refl, refl)
]

read_there :
    (size : ℕ) (c : DeviceControlData)
    → c.index + size ≤ length c.bytes
    → read size c ≡ (ok (take size (drop c.index c.bytes)), record c { index = c.index + size })
read_there size c there =
    let fits : leb (c.index + size) (length c.bytes) ≡ true = ground arith in
    (read-skip size c).0 ∙ rw fits refl

-- A field of a message: its size in bytes and its value.
pub record Field : Type 0 where
  pub size : ℕ
  pub value : ℕ

unfoldable pub message : List Field → List ℕ
unfolding pack
message [] = []
message (f ∷ fs) = pack f.size f.value ++ message fs

unfoldable pub Fits : List Field → Type 0
Fits [] = Unit
Fits (f ∷ fs) = (f.value < 256 ^ f.size) × Fits fs

-- `read_ulong` and the like, one after the other
unfoldable pub read_fields : List Field → Action DeviceControlData (List ℕ)
unfolding read_number
read_fields [] = pure []
read_fields (f ∷ fs) = do value ← read_number f.size; values ← read_fields fs; pure (value ∷ values)

abbrev pub value_of : Field → ℕ
value_of f = f.value

read_number_at :
    (before after : List ℕ) (f : Field) (c : DeviceControlData)
    → c.bytes ≡ before ++ (pack f.size f.value ++ after)
    → c.index ≡ length before
    → f.value < 256 ^ f.size
    → read_number f.size c ≡ (ok f.value, record c { index = c.index + f.size })
unfolding read_number
read_number_at before after f c e at small =
    let there : c.index + f.size ≤ length c.bytes = omega (
      arith,
      ap (λ (l : List ℕ). length l) e,
      length-append before (pack f.size f.value ++ after),
      length-append (pack f.size f.value) after,
      length-pack f.size f.value,
      at,
    ) in
    let rest : drop c.index c.bytes ≡ pack f.size f.value ++ after =
      ap (λ (l : List ℕ). drop c.index l) e
      ∙ drop-append before (pack f.size f.value ++ after) c.index at in
    let chunk : take f.size (drop c.index c.bytes) ≡ pack f.size f.value =
      ap (λ (l : List ℕ). take f.size l) rest
      ∙ take-append (pack f.size f.value) after f.size (sym (length-pack f.size f.value)) in
    rw (read_there f.size c there, chunk, unpack-pack f.size f.value small) refl

-- Numbers of any sizes that were packed into a message, at the index, are read back in their order, and
-- the index ends behind them.
pub read_fields-message :
    (fs : List Field) (before after : List ℕ) (c : DeviceControlData)
    → c.bytes ≡ before ++ (message fs ++ after)
    → c.index ≡ length before
    → Fits fs
    → read_fields fs c ≡ (ok (map value_of fs), record c { index = c.index + length (message fs) })
unfolding read_fields message Fits
read_fields-message [] before after c e at fit =
    let stay : c.index + 0 ≡ c.index = omega arith in
    ap (λ (n : ℕ). (ok [], record c { index = n })) (sym stay)
read_fields-message (f ∷ fs) before after c e at (small, fit) =
    let part : List ℕ = pack f.size f.value in
    let c' : DeviceControlData = record c { index = c.index + f.size } in
    let there : c.bytes ≡ before ++ (part ++ (message fs ++ after)) =
      e ∙ ap (λ (l : List ℕ). before ++ l) (append_assoc part (message fs) after) in
    let first : read_number f.size c ≡ (ok f.value, c') =
      read_number_at before (message fs ++ after) f c there at small in
    let later : c.bytes ≡ (before ++ part) ++ (message fs ++ after) =
      there ∙ sym (append_assoc before part (message fs ++ after)) in
    let others : read_fields fs c'
        ≡ (ok (map value_of fs), record c { index = c.index + f.size + length (message fs) }) =
      read_fields-message fs (before ++ part) after c' later
        (omega (arith, at, length-append before part, length-pack f.size f.value)) fit in
    let far : c.index + f.size + length (message fs) ≡ c.index + length (part ++ message fs) =
      omega (arith, length-append part (message fs), length-pack f.size f.value) in
    rw (first, others)
      (ap (λ (n : ℕ). (ok (f.value ∷ map value_of fs), record c { index = n })) far)
