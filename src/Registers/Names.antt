-- ===== src/Registers/Names.antt =====
-- details.py: the names of registers. `Registers` keeps a dictionary from names to unicorn's numbers for
-- registers, which are a parameter. The number of a register is `UC_X86_REG_` with its name in capitals.
use dumpulator.Prelude.{
  ℕ, zero, suc, ◌+◌, ◌-◌, Bool, true, false, ◌&&◌, List, [], ◌∷◌, ◌++◌, map, leb, ◌==◌,
  if◌then◌else◌, Option, none, some,
}
use dumpulator.Native.Text.{Name, codes, same_name}

-- The words of a line.
abbrev put_word : Name → List Name → List Name
put_word [] names = names
put_word (c ∷ cs) names = (c ∷ cs) ∷ names

abbrev words_from : Name → Name → List Name
words_from word [] = put_word word []
words_from word (c ∷ cs) =
    let next = words_from [] cs in
    let same = words_from (word ++ (c ∷ [])) cs in if c == 32 then put_word word next else same

abbrev pub words : Name → List Name
words = words_from []

abbrev upper_code : ℕ → ℕ
upper_code c = if leb 97 c && leb c 122 then c - 32 else c

-- `UC_X86_REG_` and this name
abbrev pub upper : Name → Name
upper [] = []
upper (c ∷ cs) = upper_code c ∷ upper cs

-- A key of a dictionary and its value.
pub record Entry : Type 0 where
  pub name : Name
  pub value : ℕ

abbrev pub entry : Name → ℕ → Entry
entry n v = record { name = n; value = v }

-- The value of the first entry with the name, so entries that an update puts in stand before the others.
unfoldable pub find_name : List Entry → Name → Option ℕ
unfolding same_name
find_name [] name = none
find_name (e ∷ es) name = if same_name e.name name then some e.value else find_name es name

unfoldable pub is_member : List Name → Name → Bool
unfolding same_name
is_member [] name = false
is_member (n ∷ ns) name = if same_name n name then true else is_member ns name

abbrev pub register_names : List Name
register_names =
    words (codes "ah al ax bh bl bp bpl bx ch cl cs cx dh di dil dl ds dx eax ebp ebx ecx edi edx")
    ++ (words (
          codes "eflags eip es esi esp fpsw fs gs ip rax rbp rbx rcx rdi rdx rip rsi rsp si sil sp")
        ++ (words (
              codes
                "spl ss cr0 cr1 cr2 cr3 cr4 cr8 dr0 dr1 dr2 dr3 dr4 dr5 dr6 dr7 fp0 fp1 fp2 fp3 fp4")
            ++ (words (
                  codes
                    "fp5 fp6 fp7 k0 k1 k2 k3 k4 k5 k6 k7 mm0 mm1 mm2 mm3 mm4 mm5 mm6 mm7 r8 r9 r10 r11")
                ++ (words (
                      codes
                        "r12 r13 r14 r15 st0 st1 st2 st3 st4 st5 st6 st7 xmm0 xmm1 xmm2 xmm3 xmm4 xmm5 xmm6")
                    ++ (words (
                          codes
                            "xmm7 xmm8 xmm9 xmm10 xmm11 xmm12 xmm13 xmm14 xmm15 xmm16 xmm17 xmm18 xmm19 xmm20")
                        ++ (words (
                              codes
                                "xmm21 xmm22 xmm23 xmm24 xmm25 xmm26 xmm27 xmm28 xmm29 xmm30 xmm31 ymm0 ymm1 ymm2")
                            ++ (words (
                                  codes
                                    "ymm3 ymm4 ymm5 ymm6 ymm7 ymm8 ymm9 ymm10 ymm11 ymm12 ymm13 ymm14 ymm15 ymm16 ymm17")
                                ++ (words (
                                      codes
                                        "ymm18 ymm19 ymm20 ymm21 ymm22 ymm23 ymm24 ymm25 ymm26 ymm27 ymm28 ymm29 ymm30 ymm31")
                                    ++ (words (
                                          codes
                                            "zmm0 zmm1 zmm2 zmm3 zmm4 zmm5 zmm6 zmm7 zmm8 zmm9 zmm10 zmm11 zmm12 zmm13 zmm14")
                                        ++ (words (
                                              codes
                                                "zmm15 zmm16 zmm17 zmm18 zmm19 zmm20 zmm21 zmm22 zmm23 zmm24 zmm25 zmm26 zmm27 zmm28")
                                            ++ (words (
                                                  codes
                                                    "zmm29 zmm30 zmm31 r8b r9b r10b r11b r12b r13b r14b r15b r8d r9d r10d r11d r12d r13d")
                                                ++ (words (
                                                      codes
                                                        "r14d r15d r8w r9w r10w r11w r12w r13w r14w r15w idtr gdtr ldtr tr fpcw fptag msr")
                                                    ++ (words
                                                        (codes "mxcsr fs_base gs_base"))))))))))))))

-- What unicorn had before its version 2.
abbrev pub old_names : List Name
old_names =
    words
      (codes "riz cr5 cr6 cr7 cr9 cr10 cr11 cr12 cr13 cr14 cr15 dr8 dr9 dr10 dr11 dr12 dr13 dr14")
    ++ (words (codes "dr15"))

-- The numbers of registers by their names in capitals.
module _ (number : Name → ℕ) where
  abbrev pub entries : List Name → List Entry
  entries = map (λ n. entry n (number (upper n)))

  -- `st0` and `st(0)` to `st7` and `st(7)`
  abbrev floats : (i count : ℕ) → List Entry
  floats i zero = []
  floats i (suc count) =
      entry (codes "st" ++ ((48 + i) ∷ [])) (number (codes "ST0") + i)
      ∷ entry (codes "st(" ++ ((48 + i) ∷ 41 ∷ [])) (number (codes "ST0") + i)
      ∷ floats (suc i) count

  -- `st0` and `st(0)` to `st7` and `st(7)`
  abbrev pub float_registers : List Entry
  float_registers = floats 0 8

  abbrev pub versioned : (old : Bool) → List Entry
  versioned true = entry (codes "rflags") (number (codes "EFLAGS")) ∷ entries old_names
  versioned false = entries (words (codes "flags rflags"))

  abbrev pub aliases : (x64 : Bool) → List Entry
  aliases true =
      entry (codes "cax") (number (codes "RAX"))
      ∷ entry (codes "cbx") (number (codes "RBX"))
      ∷ entry (codes "ccx") (number (codes "RCX"))
      ∷ entry (codes "cdx") (number (codes "RDX"))
      ∷ entry (codes "cbp") (number (codes "RBP"))
      ∷ entry (codes "csp") (number (codes "RSP"))
      ∷ entry (codes "csi") (number (codes "RSI"))
      ∷ entry (codes "cdi") (number (codes "RDI"))
      ∷ entry (codes "cip") (number (codes "RIP"))
      ∷ []
  aliases false =
      entry (codes "cax") (number (codes "EAX"))
      ∷ entry (codes "cbx") (number (codes "EBX"))
      ∷ entry (codes "ccx") (number (codes "ECX"))
      ∷ entry (codes "cdx") (number (codes "EDX"))
      ∷ entry (codes "cbp") (number (codes "EBP"))
      ∷ entry (codes "csp") (number (codes "ESP"))
      ∷ entry (codes "csi") (number (codes "ESI"))
      ∷ entry (codes "cdi") (number (codes "EDI"))
      ∷ entry (codes "cip") (number (codes "EIP"))
      ∷ []

  -- `_regmap`
  unfoldable pub regmap : (x64 old : Bool) → List Entry
  unfolding find_name
  regmap x64 old = aliases x64 ++ (versioned old ++ (float_registers ++ entries register_names))

-- `_flagposdict`
abbrev pub flag_positions : List Entry
flag_positions =
    entry (codes "cf") 0
    ∷ entry (codes "pf") 1
    ∷ entry (codes "af") 3
    ∷ entry (codes "zf") 5
    ∷ entry (codes "sf") 6
    ∷ entry (codes "tf") 7
    ∷ entry (codes "if") 8
    ∷ entry (codes "df") 9
    ∷ entry (codes "of") 10
    ∷ entry (codes "iopl") 12
    ∷ entry (codes "nt") 13
    ∷ entry (codes "rf") 15
    ∷ entry (codes "vm") 16
    ∷ entry (codes "ac") 17
    ∷ entry (codes "vif") 18
    ∷ entry (codes "vip") 19
    ∷ entry (codes "id") 20
    ∷ []
