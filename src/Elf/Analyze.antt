-- ===== src/Elf/Analyze.antt =====
-- VM/ELF/analyze.py: `ELF32` with the sections and symbols of a file, which it reads once and keeps,
-- and the image of the loadable segments. The structures are those of VM/ELF/ELF_structs.py.
pub mod Splice
pub mod Segment
pub mod Holds
pub mod Image
pub mod Names
pub mod Kept
pub mod Fields
pub mod Queries
pub mod Cache
use py_vm.Prelude.{
  length, get_elem?, ℕ, zero, suc, ◌+◌, ◌-◌, ◌/◌, sym, Bool, true, false, ◌&&◌, Option, none, some,
  List, [], ◌∷◌, ◌++◌, ltb, ◌==◌, if◌then◌else◌,
}
use py_vm.Outcome.{
  value_error, zero_division_error, index_error, key_error, unicode_error, Result, ok, err,
}
use py_vm.Kernel.Blocks.{take}
use py_vm.Kernel.Process.{drop_first}
use py_vm.Elf.{
  Header, ProgramHeader, read_file, field8, field16, field32, unpack, and_then, open_elf, p_type_of,
}
use py_vm.Loader.{zeros}
use py_vm.Elf

-- `ELF32_Shdr`
pub record SectionHeader : Type 0 where
  pub sh_name : ℕ
  pub sh_type : ℕ
  pub sh_flags : ℕ
  pub sh_addr : ℕ
  pub sh_offset : ℕ
  pub sh_size : ℕ
  pub sh_link : ℕ
  pub sh_info : ℕ
  pub sh_addralign : ℕ
  pub sh_entsize : ℕ

-- `ELF32_Sym`
pub record Symbol : Type 0 where
  pub st_name : ℕ
  pub st_value : ℕ
  pub st_size : ℕ
  pub st_info : ℕ
  pub st_other : ℕ
  pub st_shndex : ℕ

abbrev pub section_fields : List ℕ → SectionHeader
section_fields raw = record {
  sh_name = field32 raw 0;
  sh_type = field32 raw 4;
  sh_flags = field32 raw 8;
  sh_addr = field32 raw 12;
  sh_offset = field32 raw 16;
  sh_size = field32 raw 20;
  sh_link = field32 raw 24;
  sh_info = field32 raw 28;
  sh_addralign = field32 raw 32;
  sh_entsize = field32 raw 36;
}

abbrev pub symbol_fields : List ℕ → Symbol
symbol_fields raw = record {
  st_name = field32 raw 0;
  st_value = field32 raw 4;
  st_size = field32 raw 8;
  st_info = field8 raw 12;
  st_other = field8 raw 13;
  st_shndex = field16 raw 14;
}

-- `[parser(self.file) for _ in range(n)]` from a position on, for a parser of `size` bytes.
unfoldable pub parse_many : {A : Type 0} → ℕ → (List ℕ → A) → List ℕ → ℕ → ℕ → Result (List A)
unfolding read_file
parse_many size fields file position zero = ok []
parse_many size fields file position (suc n) =
    and_then (unpack size fields (read_file file position size))
      (λ x. and_then (parse_many size fields file (position + size) n) (λ xs. ok (x ∷ xs)))

-- A `dict` whose keys are names, as their bytes.
abbrev pub Dict : Type 0 → Type 0
Dict V = List (List ℕ × V)

abbrev pub same_name : List ℕ → List ℕ → Bool
same_name [] [] = true
same_name (x ∷ xs) (y ∷ ys) = x == y && same_name xs ys
same_name [] (y ∷ ys) = false
same_name (x ∷ xs) [] = false

unfoldable pub lookup : {V : Type 0} → List ℕ → Dict V → Option V
lookup name [] = none
lookup name ((k, v) ∷ d) = if same_name name k then some v else lookup name d

unfoldable pub insert : {V : Type 0} → List ℕ → V → Dict V → Dict V
insert name v [] = (name, v) ∷ []
insert name v ((k, w) ∷ d) = if same_name name k then (name, v) ∷ d else (k, w) ∷ insert name v d

-- `bytes.split(b'\0', 1)[0]`
unfoldable pub until_zero : List ℕ → List ℕ
until_zero [] = []
until_zero (x ∷ xs) = if x == 0 then [] else x ∷ until_zero xs

module _ (is_utf8 : List ℕ → Bool) where
  -- `{names[x.name:].split(b'\0', 1)[0].decode(): x for x in xs}`, added to `d`. The decoding, which is
  -- one-to-one, is left out where it succeeds.
  unfoldable pub named : {V : Type 0} → (V → ℕ) → List ℕ → List V → Dict V → Result (Dict V)
  unfolding until_zero drop_first insert
  named name names [] d = ok d
  named name names (x ∷ xs) d =
      let key = until_zero (drop_first (name x) names) in
      if is_utf8 key then named name names xs (insert key x d) else err unicode_error

  -- What the property `sections` reads.
  unfoldable pub read_sections : List ℕ → Header → Result (Dict SectionHeader)
  unfolding parse_many named read_file drop_first
  read_sections file hdr =
      and_then (parse_many 40 section_fields file hdr.e_shoff hdr.e_shnum) (λ sections.
        elim (get_elem? sections hdr.e_shstrndx) [
          | none ↦ err index_error
          | some shstrndx ↦
              named (λ section. section.sh_name)
                (read_file file shstrndx.sh_offset shstrndx.sh_size) (drop_first 1 sections) []
        ])

  -- The symbols of a table, with the names in the other section.
  unfoldable pub read_symbols : List ℕ → SectionHeader → SectionHeader → Result (Dict Symbol)
  unfolding parse_many named read_file
  read_symbols file sec_sym sec_str =
      if sec_sym.sh_entsize == 0
      then err zero_division_error
      else and_then
          (parse_many 16 symbol_fields file sec_sym.sh_offset
            (sec_sym.sh_size / sec_sym.sh_entsize))
          (λ symbols.
            named (λ sym. sym.st_name) (read_file file sec_str.sh_offset sec_str.sh_size) symbols
              [])

-- An object of the class: the file, its header and what was read before.
pub record Analysis : Type 0 where
  pub file : List ℕ
  pub hdr : Header
  pub cached_sections : Option (Dict SectionHeader)
  pub cached_phdrs : Option (List ProgramHeader)
  pub cached_dynsym : Option (Dict Symbol)
  pub cached_symtab : Option (Dict Symbol)
  pub cached_contents : Dict (List ℕ)

-- A method or property: what it returns or raises, and the object after it.
abbrev pub Query : Type 0 → Type 0
Query A = Analysis → Result A × Analysis

abbrev pub then_ask : {A B : Type 0} → Result A × Analysis → (A → Query B) → Result B × Analysis
then_ask (ok a, self) k = k a self
then_ask (err e, self) k = (err e, self)

-- What is read is kept, unless reading raises.
abbrev pub remember : {A B : Type 0} → (A → Analysis → Analysis) → (A → B) → Result A → Query B
remember keep shown (ok a) self = (ok (shown a), keep a self)
remember keep shown (err e) self = (err e, self)

-- `ELF32.__init__`
unfoldable pub open_analysis : List ℕ → Result Analysis
unfolding open_elf
open_analysis file = and_then (open_elf file) (λ header. ok (record {
  file = file;
  hdr = header;
  cached_sections = none;
  cached_phdrs = none;
  cached_dynsym = none;
  cached_symtab = none;
  cached_contents = [];
}))

unfoldable pub phdrs : Query (List ProgramHeader)
unfolding Elf.phdrs
phdrs self = elim self.cached_phdrs [
  | some ps ↦ (ok ps, self)
  | none ↦
      remember (λ ps s. record s { cached_phdrs = some ps }) (λ ps. ps)
        (Elf.phdrs self.file self.hdr) self
]

-- '.dynsym', '.dynstr', '.symtab', '.strtab'
abbrev pub name_dynsym : List ℕ
name_dynsym = 46 ∷ 100 ∷ 121 ∷ 110 ∷ 115 ∷ 121 ∷ 109 ∷ []

abbrev pub name_dynstr : List ℕ
name_dynstr = 46 ∷ 100 ∷ 121 ∷ 110 ∷ 115 ∷ 116 ∷ 114 ∷ []

abbrev pub name_symtab : List ℕ
name_symtab = 46 ∷ 115 ∷ 121 ∷ 109 ∷ 116 ∷ 97 ∷ 98 ∷ []

abbrev pub name_strtab : List ℕ
name_strtab = 46 ∷ 115 ∷ 116 ∷ 114 ∷ 116 ∷ 97 ∷ 98 ∷ []

-- `sections[a], sections[b]`, or none for the KeyError of either.
abbrev pub both_sections :
    List ℕ → List ℕ → Dict SectionHeader → Option (SectionHeader × SectionHeader)
both_sections a b sections = elim (lookup a sections) [
  | none ↦ none
  | some sec_sym ↦ elim (lookup b sections) [ some sec_str ↦ some (sec_sym, sec_str) | none ↦ none ]
]

module _ (is_utf8 : List ℕ → Bool) where
  unfoldable pub sections : Query (Dict SectionHeader)
  unfolding read_sections
  sections self = elim self.cached_sections [
    | some d ↦ (ok d, self)
    | none ↦
        remember (λ d s. record s { cached_sections = some d }) (λ d. d)
          (read_sections is_utf8 self.file self.hdr) self
  ]

  unfoldable pub dynsym : Query (Option (Dict Symbol))
  unfolding sections read_symbols lookup
  dynsym self = elim self.cached_dynsym [
    | some d ↦ (ok (some d), self)
    | none ↦ then_ask (sections self) (λ ds self. elim (both_sections name_dynsym name_dynstr ds) [
      | none ↦ (ok none, self)
      | some (sec_dynsym, sec_dynstr) ↦
          remember (λ d s. record s { cached_dynsym = some d }) some
            (read_symbols is_utf8 self.file sec_dynsym sec_dynstr) self
    ])
  ]

  unfoldable pub symtab : Query (Option (Dict Symbol))
  unfolding sections read_symbols lookup
  symtab self = elim self.cached_symtab [
    | some d ↦ (ok (some d), self)
    | none ↦ then_ask (sections self) (λ ds self. elim (both_sections name_symtab name_strtab ds) [
      | none ↦ (ok none, self)
      | some (sec_symtab, sec_strtab) ↦
          remember (λ d s. record s { cached_symtab = some d }) some
            (read_symbols is_utf8 self.file sec_symtab sec_strtab) self
    ])
  ]

  unfoldable pub get_section_contents : List ℕ → Query (List ℕ)
  unfolding sections lookup insert read_file
  get_section_contents section_name self = elim (lookup section_name self.cached_contents) [
    | some bytes ↦ (ok bytes, self)
    | none ↦ then_ask (sections self) (λ ds self. elim (lookup section_name ds) [
      | none ↦ (err key_error, self)
      | some section ↦
          let bytes = read_file self.file section.sh_offset section.sh_size in
          (
            ok bytes,
            record self { cached_contents = insert section_name bytes self.cached_contents },
          )
    ])
  ]

-- `xs[a:b] = ys` for a bytearray: both ends are cut off at its length.
unfoldable pub splice : List ℕ → ℕ → ℕ → List ℕ → List ℕ
unfolding take drop_first
splice xs a b ys = take a xs ++ ys ++ drop_first (if ltb b a then a else b) xs

-- The body of the loop of `load` for a loadable segment.
unfoldable pub add_segment : List ℕ → ProgramHeader → List ℕ → Result (List ℕ)
unfolding splice zeros read_file
add_segment file p ret =
    let max_mem_offset = p.p_vaddr + p.p_memsz in
    let grown =
      if ltb (length ret) max_mem_offset then ret ++ zeros (max_mem_offset - length ret) else ret in
    let filled =
      splice grown p.p_vaddr (p.p_vaddr + p.p_filesz) (read_file file p.p_offset p.p_filesz) in
    if ltb p.p_memsz p.p_filesz
    then err value_error
    else ok (
        splice filled (p.p_vaddr + p.p_filesz) (p.p_vaddr + p.p_memsz)
          (zeros (p.p_memsz - p.p_filesz)))

unfoldable pub add_segments : Bool → List ℕ → List ProgramHeader → List ℕ → Result (List ℕ)
unfolding add_segment
add_segments strict file [] ret = ok ret
add_segments strict file (p ∷ ps) ret = and_then (p_type_of strict p) (λ t.
    and_then (if t == 1 then add_segment file p ret else ok ret)
      (λ ret. add_segments strict file ps ret))

unfoldable pub load : Bool → Query (List ℕ)
unfolding phdrs add_segments
load strict self = then_ask (phdrs self) (λ ps self. (add_segments strict self.file ps [], self))
