-- ===== src/Pages/Examples.antt =====
-- The page managers on small inputs, and the theorems at inputs that meet their hypotheses.
use dumpulator.Prelude.{ℕ, ◌≡◌, refl, true, false, some, none, List, [], ◌∷◌, length, arith}
use dumpulator.Prelude.Dict.{empty, put}
use dumpulator.Outcome.{ok, raise, assertion_error}
use dumpulator.Memory.Protect.{page_size, page_readwrite}
use dumpulator.Pages.Child.{PageManager}
use dumpulator.Pages.Lazy.{
  LazyPage, LazyPageManager, chunks_from, iter_chunks, page_bytes, chunk_pages, all_committed, read,
  write,
}
use dumpulator.Pages.Access.{read-write, write-overrun}

-- An engine that does every call and keeps nothing.
abbrev engine : PageManager
engine = record {
  State = Unit {0};
  commit = λ addr size prot s. some s;
  decommit = λ addr size s. some s;
  protect = λ addr size prot s. some s;
  read = λ addr size s. some [];
  write = λ addr bytes s. some s;
}

abbrev untouched : ℕ → LazyPage
untouched addr = record { addr = addr; protect = page_readwrite; committed = false; bytes = none }

abbrev two_pages : LazyPageManager engine
two_pages = record {
  child = tt;
  total_commit = 0x2000;
  pages = put 0x1000 (untouched 0x1000) (put 0x2000 (untouched 0x2000) empty);
  lazy = true;
}

abbrev four_bytes : List ℕ
four_bytes = 1 ∷ 2 ∷ 3 ∷ 4 ∷ []

page_full : length (page_bytes (untouched 0x1000)) ≡ page_size
unfolding page_bytes
page_full = refl

read-write_example :
    ((write engine 0x1010 four_bytes two_pages).0 ≡ ok tt)
    × ((read engine 0x1010 4 (write engine 0x1010 four_bytes two_pages).1).0 ≡ ok four_bytes)
read-write_example =
    read-write engine two_pages 0x1010 four_bytes (untouched 0x1000) refl refl refl page_full
      (omega arith) (omega arith)

crossing_pages :
    chunk_pages engine two_pages.pages (iter_chunks 0x1ffe 4)
    ≡ ok (untouched 0x1000 ∷ untouched 0x2000 ∷ [])
unfolding chunk_pages iter_chunks chunks_from
crossing_pages = refl

crossing_lazy : all_committed engine (untouched 0x1000 ∷ untouched 0x2000 ∷ []) ≡ false
unfolding all_committed
crossing_lazy = refl

write-overrun_example : (write engine 0x1ffe four_bytes two_pages).0 ≡ raise assertion_error
write-overrun_example =
    write-overrun engine two_pages 0x1ffe four_bytes (untouched 0x1000) refl refl refl page_full
      (omega arith) (omega arith) (omega arith) (untouched 0x1000 ∷ untouched 0x2000 ∷ [])
      crossing_pages crossing_lazy
