-- ===== src/Handles/Reading.antt =====
-- `FileObject`: what is read is what was written, in one piece or in several.
use dumpulator.Prelude.{
  take_nil, drop-take, ℕ, zero, suc, ◌+◌, ◌≤◌, ◌≡◌, refl, sym, ◌∙◌, ap, Option, none, some, List,
  [], ◌∷◌, ◌++◌, length, take, drop, arith, take-append, drop-append, length-take, length-append,
}
use mathlib.Core.List.{append-nil}
use dumpulator.Handles.File.{FileObject, read, buffer_part, write_size, write}

-- The first `a` elements and the `b` after them.
two_parts :
    (a b : ℕ) (xs : List ℕ) → take a xs ++ take b (drop (length (take a xs)) xs) ≡ take (a + b) xs
two_parts zero b xs = let e : 0 + b ≡ b = omega arith in rw e refl
two_parts (suc a) b [] = let e : suc a + b ≡ suc (a + b) = omega arith in rw (e, take_nil b) refl
two_parts (suc a) b (x ∷ xs) =
    let e : suc a + b ≡ suc (a + b) = omega arith in rw (e, two_parts a b xs) refl

drop-drop : (i n : ℕ) (xs : List ℕ) → drop (i + n) xs ≡ drop n (drop i xs)
drop-drop zero n xs = let e : 0 + n ≡ n = omega arith in rw e refl
drop-drop (suc i) zero [] = let e : suc i + 0 ≡ suc i = omega arith in rw e refl
drop-drop (suc i) (suc n) [] = let e : suc i + suc n ≡ suc (i + suc n) = omega arith in rw e refl
drop-drop (suc i) n (x ∷ xs) =
    let e : suc i + n ≡ suc (i + n) = omega arith in rw e (drop-drop i n xs)

abbrev at_offset : List ℕ → ℕ → FileObject
at_offset d o = record { bytes = some d; file_offset = o }

-- `read(n)` gives the `n` bytes from the offset on, or those that are left, and moves past them.
read_some :
    (n o : ℕ) (d : List ℕ)
    → read (some n) (at_offset d o)
      ≡ (take n (drop o d), at_offset d (o + length (take n (drop o d))))
unfolding read
read_some n o d = rw (drop-take o n d) refl

two_reads :
    (a b o : ℕ) (d : List ℕ)
    → take a (drop o d) ++ take b (drop (o + length (take a (drop o d))) d)
      ≡ take (a + b) (drop o d)
two_reads a b o d = rw (drop-drop o (length (take a (drop o d))) d) (two_parts a b (drop o d))

abbrev file_of : Option (List ℕ) → ℕ → FileObject
file_of bytes o = record { bytes = bytes; file_offset = o }

read_none : (size : Option ℕ) (o : ℕ) → read size (file_of none o) ≡ ([], file_of none o)
unfolding read
read_none size o = refl

read-read_of :
    (a b : ℕ) (bytes : Option (List ℕ)) (o : ℕ)
    → ((read (some a) (file_of bytes o)).0 ++ (read (some b) (read (some a) (file_of bytes o)).1).0
        ≡ (read (some (a + b)) (file_of bytes o)).0)
      × ((read (some b) (read (some a) (file_of bytes o)).1).1
          ≡ (read (some (a + b)) (file_of bytes o)).1)
read-read_of a b none o =
    rw (read_none (some a) o, read_none (some b) o, read_none (some (a + b)) o) (refl, refl)
read-read_of a b (some d) o =
    let x : List ℕ = take a (drop o d) in
    let y : List ℕ = take b (drop (o + length x) d) in
    let whole : x ++ y ≡ take (a + b) (drop o d) = two_reads a b o d in
    let far : o + length x + length y ≡ o + length (take (a + b) (drop o d)) =
      omega (arith, length-append x y, ap (λ (l : List ℕ). length l) whole) in
    rw (read_some a o d, read_some b (o + length x) d, read_some (a + b) o d)
      (whole, ap (λ (n : ℕ). at_offset d n) far)

-- Two reads in turn give the same bytes as one read of both sizes, and leave the same file, also past
-- the end of the file.
pub read-read :
    (a b : ℕ) (f : FileObject)
    → ((read (some a) f).0 ++ (read (some b) (read (some a) f).1).0 ≡ (read (some (a + b)) f).0)
      × ((read (some b) (read (some a) f).1).1 ≡ (read (some (a + b)) f).1)
read-read a b f = read-read_of a b f.bytes f.file_offset

part_length :
    (buffer : List ℕ) (size : Option ℕ)
    → write_size buffer size ≤ length buffer
    → length (buffer_part buffer size) ≡ write_size buffer size
part_length buffer none h = refl
part_length buffer (some n) h = omega (arith, length-take n buffer)

-- The bytes of the file, none for a new one.
abbrev pub contents : FileObject → List ℕ
contents f = elim f.bytes [ none ↦ [] | some bytes ↦ bytes ]

-- What a write at `o` makes of the bytes `d`.
abbrev overwritten : (buffer : List ℕ) → Option ℕ → ℕ → List ℕ → List ℕ
overwritten buffer size o d =
    take o d ++ (buffer_part buffer size ++ drop (o + write_size buffer size) d)

drop_nil : (n : ℕ) → drop {A = ℕ} n [] ≡ []
drop_nil zero = refl
drop_nil (suc n) = refl

write_of :
    (buffer : List ℕ) (size : Option ℕ) (bytes : Option (List ℕ)) (o : ℕ)
    → write buffer size (file_of bytes o)
      ≡ at_offset
          (overwritten buffer size o (contents (file_of bytes o)))
          (o + write_size buffer size)
unfolding write
write_of buffer size none o =
    rw (take_nil o, drop_nil (o + write_size buffer size), append-nil) refl
write_of buffer size (some d) o = refl

module _ (buffer : List ℕ) (size : Option ℕ) (o : ℕ) (d : List ℕ) (inside : o ≤ length d)
    (held : write_size buffer size ≤ length buffer) where
  abbrev rest : List ℕ
  rest = drop (o + write_size buffer size) d

  length-before : o ≡ length (take o d)
  length-before = omega (arith, length-take o d, inside)

  after_offset : drop o (overwritten buffer size o d) ≡ buffer_part buffer size ++ rest
  after_offset = drop-append (take o d) (buffer_part buffer size ++ rest) o length-before

  the_part :
      take (write_size buffer size) (drop o (overwritten buffer size o d)) ≡ buffer_part buffer size
  the_part = rw after_offset (
      take-append (buffer_part buffer size) rest (write_size buffer size)
        (sym (part_length buffer size held)))

  the_rest : drop (o + write_size buffer size) (overwritten buffer size o d) ≡ rest
  the_rest =
      rw (drop-drop o (write_size buffer size) (overwritten buffer size o d), after_offset)
        (drop-append (buffer_part buffer size) rest (write_size buffer size)
          (sym (part_length buffer size held)))

  before : take o (overwritten buffer size o d) ≡ take o d
  before = take-append (take o d) (buffer_part buffer size ++ rest) o length-before

  read_part : read (some (write_size buffer size)) (at_offset (overwritten buffer size o d) o) ≡ (
    buffer_part buffer size,
    at_offset (overwritten buffer size o d) (o + write_size buffer size),
  )
  read_part =
      read_some (write_size buffer size) o (overwritten buffer size o d)
      ∙ ap (λ (w : List ℕ). (w, at_offset (overwritten buffer size o d) (o + length w))) the_part
      ∙ ap (λ (n : ℕ). (buffer_part buffer size, at_offset (overwritten buffer size o d) (o + n)))
          (part_length buffer size held)

-- A write of a whole buffer, or of a size that it holds, at an offset within the file: a read of that
-- size from the old offset gives the bytes written and ends where the write ended, and the bytes before
-- and after them are those of the old file.
pub write-read :
    (buffer : List ℕ) (size : Option ℕ) (f : FileObject)
    → f.file_offset ≤ length (contents f)
    → write_size buffer size ≤ length buffer
    → (read
          (some (write_size buffer size))
          (record (write buffer size f) { file_offset = f.file_offset })
        ≡ (buffer_part buffer size, write buffer size f))
      × ((take f.file_offset (contents (write buffer size f)) ≡ take f.file_offset (contents f))
          × (drop (f.file_offset + write_size buffer size) (contents (write buffer size f))
              ≡ drop (f.file_offset + write_size buffer size) (contents f)))
write-read buffer size f inside held =
    let o : ℕ = f.file_offset in
    let d : List ℕ = contents f in
    let written : write buffer size f
        ≡ at_offset (overwritten buffer size o d) (o + write_size buffer size) =
      write_of buffer size f.bytes o in
    rw written (
      read_part buffer size o d inside held,
      (before buffer size o d inside held, the_rest buffer size o d inside held),
    )
