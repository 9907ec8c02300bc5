-- ===== src/Pages/Access.antt =====
-- Reads and writes of a page that the engine has not touched.
use dumpulator.Prelude.{
  ℕ, zero, suc, ◌+◌, ◌-◌, ◌*◌, ◌/◌, ◌%◌, ◌≤◌, ◌<◌, ◌≡◌, refl, ◌∙◌, ap, true, false, some, List, [],
  ◌∷◌, ◌++◌, arith, leb, ◌==◌, length, take, drop, replicate, length-replicate, length-append,
  length-take, length-drop, take-append, take_all,
}
use mathlib.Core.List.{append-nil}
use dumpulator.Prelude.Dict.{Dict, put}
use dumpulator.Outcome.{assertion_error, ok, raise}
use dumpulator.Memory.Protect.{page_size}
use dumpulator.Pages.Child.{PageManager}
use dumpulator.Pages.Lazy.{
  LazyPage, LazyPageManager, Chunk, smaller, chunks_from, iter_chunks, slice, splice, page_bytes,
  chunk_pages, all_committed, write_chunk, write_chunks, write, read_chunk, read_chunks, read,
  page_of,
}

abbrev pub page_at : ℕ → ℕ
page_at addr = addr / page_size * page_size

abbrev pub first_chunk : (addr size : ℕ) → Chunk
first_chunk addr size = record {
  page = page_at addr;
  index = addr % page_size;
  size = smaller page_size (addr + size - (page_at addr + addr % page_size));
}

-- A range that is not empty has a first chunk, from its address on.
iter_chunks_first :
    (addr size : ℕ)
    → 0 < size
    → (ks : List Chunk) × (iter_chunks addr size ≡ first_chunk addr size ∷ ks)
unfolding iter_chunks chunks_from
iter_chunks_first addr size h =
    let e : size / page_size + 2 ≡ suc (suc (size / page_size)) = omega arith in
    let more : leb (addr + size) (page_at addr) ≡ false = ground arith in
    (
      chunks_from (suc (size / page_size)) (page_at addr + page_size) 0 (addr + size),
      rw (e, more) refl,
    )

-- A range within a page is one chunk.
iter_chunks_one :
    (addr size : ℕ)
    → 0 < size
    → addr % page_size + size ≤ page_size
    → iter_chunks addr size ≡ first_chunk addr size ∷ []
unfolding iter_chunks chunks_from
iter_chunks_one addr size h fits =
    let e : size / page_size + 2 ≡ suc (suc (size / page_size)) = omega arith in
    let more : leb (addr + size) (page_at addr) ≡ false = ground arith in
    let last : leb (addr + size) (page_at addr + page_size) ≡ true = ground arith in
    rw (e, more, last) refl

length-splice :
    (from to : ℕ) (ys xs : List ℕ)
    → from ≤ length xs
    → length (splice from to ys xs) ≡ from + (length ys + (length xs - to))
length-splice from to ys xs h = omega (
  arith,
  length-append (take from xs) (ys ++ drop to xs),
  length-append ys (drop to xs),
  length-take from xs,
  length-drop to xs,
)

slice-append :
    (xs ys zs : List ℕ) (i n : ℕ)
    → i ≡ length xs
    → n ≡ length ys
    → slice i (i + n) (xs ++ (ys ++ zs)) ≡ ys
slice-append [] ys zs zero n e f = let z : 0 + n ≡ n = omega arith in rw z (take-append ys zs n f)
slice-append [] ys zs (suc i) n e f = absurd (omega arith)
slice-append (x ∷ xs) ys zs zero n e f = absurd (omega arith)
slice-append (x ∷ xs) ys zs (suc i) n e f =
    let z : suc i + n ≡ suc (i + n) = omega arith in
    rw z (slice-append xs ys zs i n (omega arith) f)

drop_all : (xs : List ℕ) (n : ℕ) → length xs ≤ n → drop n xs ≡ []
drop_all [] zero h = refl
drop_all [] (suc n) h = refl
drop_all (x ∷ xs) zero h = absurd (omega arith)
drop_all (x ∷ xs) (suc n) h = drop_all xs n (omega arith)

-- All of a buffer is replaced.
splice_all : (n : ℕ) (ys xs : List ℕ) → length xs ≤ n → splice 0 (0 + n) ys xs ≡ ys
splice_all n ys xs h = let z : 0 + n ≡ n = omega arith in rw (z, drop_all xs n h, append-nil) refl

module _ (c : PageManager) (m : LazyPageManager c) (addr : ℕ) (bytes : List ℕ) (p : LazyPage)
    (here : m.pages (page_at addr) ≡ some p) (own : p.addr ≡ page_at addr)
    (lazy : p.committed ≡ false) (full : length (page_bytes p) ≡ page_size)
    (filled : 0 < length bytes) where
  abbrev at_page : Chunk
  at_page = first_chunk addr (length bytes)

  at_start : (p.addr + at_page.index) - addr ≡ 0
  at_start = omega (arith, own)

  chunk_size : at_page.size ≡ smaller page_size (length bytes)
  chunk_size =
      let e : addr + length bytes - (page_at addr + addr % page_size) ≡ length bytes =
        omega arith in
      rw e refl

  abbrev chunk : List ℕ
  chunk =
      slice ((p.addr + at_page.index) - addr) ((p.addr + at_page.index) - addr + at_page.size) bytes

  chunk_whole : chunk ≡ take at_page.size bytes
  chunk_whole = let e : 0 + at_page.size ≡ at_page.size = omega arith in rw (at_start, e) refl

  length-chunk : (length chunk == at_page.size) ≡ true
  length-chunk = rw chunk_whole (ground (arith, length-take at_page.size bytes, chunk_size))

  abbrev page_after : List ℕ
  page_after = splice at_page.index (at_page.index + at_page.size) chunk (page_bytes p)

  length-page_after :
      length page_after
      ≡ at_page.index + (at_page.size + (page_size - (at_page.index + at_page.size)))
  length-page_after =
      let n : length chunk ≡ at_page.size = ground (arith, length-chunk) in
      length-splice at_page.index (at_page.index + at_page.size) chunk (page_bytes p)
        (omega (arith, full))
      ∙ rw (n, full) refl

  page_found : page_of c at_page m.pages ≡ ok p
  unfolding page_of
  page_found = rw (here, page_of) refl

  write_chunks-raise :
      (ks : List Chunk)
      → (write_chunk c addr bytes at_page p m).0 ≡ raise assertion_error
      → (write_chunks c addr bytes (at_page ∷ ks) m).0 ≡ raise assertion_error
  unfolding write_chunks
  write_chunks-raise ks e = rw (page_found, e) refl

  module _ (crosses : page_size < addr % page_size + length bytes)
      (unaligned : 0 < addr % page_size) where
    overrun : (length page_after == page_size) ≡ false
    overrun = ground (arith, length-page_after, chunk_size)

    write_chunk-overrun : (write_chunk c addr bytes at_page p m).0 ≡ raise assertion_error
    unfolding write_chunk
    write_chunk-overrun = rw (length-chunk, overrun, lazy) refl

    -- A write that starts inside a page which the engine has not touched, and goes on past its end,
    -- raises `AssertionError`, if all its pages are there: `iter_chunks` gives the first page too long a
    -- chunk, so that its bytes grow beyond the page.
    pub write-overrun :
        (pages : List LazyPage)
        → chunk_pages c m.pages (iter_chunks addr (length bytes)) ≡ ok pages
        → all_committed c pages ≡ false
        → (write c addr bytes m).0 ≡ raise assertion_error
    unfolding write
    write-overrun pages there some_lazy =
        let (ks, e) = iter_chunks_first addr (length bytes) filled in
        rw (there, some_lazy, e) (write_chunks-raise ks write_chunk-overrun)

  module _ (fits : addr % page_size + length bytes ≤ page_size) where
    size_here : at_page.size ≡ length bytes
    size_here = ground (arith, chunk_size)

    abbrev written : LazyPageManager c
    written = record m {
      pages = put (page_at addr) (record p { committed = false; bytes = some page_after }) m.pages;
    }

    page_full : (length page_after == page_size) ≡ true
    page_full = ground (arith, length-page_after, size_here)

    write_chunk-fits : write_chunk c addr bytes at_page p m ≡ (ok tt, written)
    unfolding write_chunk
    write_chunk-fits = rw (length-chunk, page_full, lazy) refl

    one_page :
        (d : Dict LazyPage) (q : LazyPage)
        → d (page_at addr) ≡ some q
        → chunk_pages c d (at_page ∷ []) ≡ ok (q ∷ [])
    unfolding chunk_pages
    one_page d q e = rw (e, chunk_pages) refl

    one_lazy : (q : LazyPage) → q.committed ≡ false → all_committed c (q ∷ []) ≡ false
    unfolding all_committed
    one_lazy q e = rw e refl

    write-fits : write c addr bytes m ≡ (ok tt, written)
    unfolding write write_chunks
    write-fits =
        rw
          (
            iter_chunks_one addr (length bytes) filled fits,
            one_page m.pages p here,
            one_lazy p lazy,
            page_found,
            write_chunk-fits,
          )
          refl

    abbrev page' : LazyPage
    page' = record p { committed = false; bytes = some page_after }

    page'_there : written.pages (page_at addr) ≡ some page'
    page'_there = ground arith

    page'_found : page_of c at_page written.pages ≡ ok page'
    unfolding page_of
    page'_found = rw (page'_there, page_of) refl

    abbrev start : ℕ
    start = (p.addr + at_page.index) - addr

    -- The bytes of the page where they were written.
    page'_bytes : slice at_page.index (at_page.index + at_page.size) (page_bytes page') ≡ bytes
    unfolding page_bytes
    page'_bytes =
        slice-append (take at_page.index (page_bytes p)) chunk
          (drop (at_page.index + at_page.size) (page_bytes p)) at_page.index at_page.size
          (omega (arith, length-take at_page.index (page_bytes p), full))
          (ground (arith, length-chunk))
        ∙ chunk_whole
        ∙ take_all bytes at_page.size (omega (arith, size_here))

    read_chunk_lazy :
        (q : LazyPage) (b : List ℕ)
        → q.committed ≡ false
        → (read_chunk c addr at_page q b written).0
          ≡ ok (
              splice
                ((q.addr + at_page.index) - addr)
                ((q.addr + at_page.index) - addr + at_page.size)
                (slice at_page.index (at_page.index + at_page.size) (page_bytes q))
                b)
    unfolding read_chunk
    read_chunk_lazy q b e = rw e refl

    read_back : (read_chunk c addr at_page page' (replicate (length bytes) 0) written).0 ≡ ok bytes
    read_back =
        read_chunk_lazy page' (replicate (length bytes) 0) refl
        ∙ ap
            (λ (b : List ℕ).
              ok (splice start (start + at_page.size) b (replicate (length bytes) 0)))
            page'_bytes
        ∙ ap (λ (n : ℕ). ok (splice n (n + at_page.size) bytes (replicate (length bytes) 0)))
            at_start
        ∙ ap (λ (b : List ℕ). ok b)
            (splice_all at_page.size bytes (replicate (length bytes) 0) (
              let zeros : length (replicate {A = ℕ} (length bytes) 0) ≡ length bytes =
                length-replicate (length bytes) 0 in
              omega (arith, zeros, size_here)))

    after_read : LazyPageManager c
    after_read = (read_chunk c addr at_page page' (replicate (length bytes) 0) written).1

    read_chunk_eq :
        read_chunk c addr at_page page' (replicate (length bytes) 0) written
        ≡ (ok bytes, after_read)
    unfolding after_read
    read_chunk_eq = λ i. (read_back i, after_read)

    read_written : (read c addr (length bytes) written).0 ≡ ok bytes
    unfolding read read_chunks
    read_written =
        rw
          (
            iter_chunks_one addr (length bytes) filled fits,
            one_page written.pages page' page'_there,
            one_lazy page' refl,
            page'_found,
            read_chunk_eq,
          )
          (ground arith)

    -- On a page that the engine has not touched, a non-empty write that stays within the page succeeds,
    -- and a read of the same range returns the bytes that were written.
    pub read-write :
        ((write c addr bytes m).0 ≡ ok tt)
        × ((read c addr (length bytes) (write c addr bytes m).1).0 ≡ ok bytes)
    read-write = rw write-fits (refl, read_written)
