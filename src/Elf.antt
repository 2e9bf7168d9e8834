-- ===== src/Elf.antt =====
-- VM/ELF/ELF_structs.py, ELF_parser.py, ELF_enums.py and ELF_impl.py: the header and the program
-- headers of an ELF file, which `struct` reads field by field, and the checks of `ELF32`.
pub mod Headers
pub mod Analyze
use py_vm.Prelude.{
  length, get_elem?, ℕ, zero, suc, ◌+◌, ◌*◌, Bool, true, false, not, ◌&&◌, ◌||◌, none, some, List,
  [], ◌∷◌, ◌==◌, if◌then◌else◌,
}
use py_vm.Outcome.{assertion_error, value_error, type_error, struct_error, Result, ok, err}
use py_vm.Kernel.Blocks.{take}
use py_vm.Kernel.Process.{drop_first}

-- `ELF32_Ident`, the fields that the program uses.
pub record Ident : Type 0 where
  pub magic : List ℕ
  pub ei_class : ℕ
  pub ei_data : ℕ

-- `ELF32_Ehdr`, the fields that the program uses; `raw` numbers, which are converted when read.
pub record Header : Type 0 where
  pub e_ident : Ident
  pub e_type : ℕ
  pub e_machine : ℕ
  pub e_entry : ℕ
  pub e_phoff : ℕ
  pub e_shoff : ℕ
  pub e_phnum : ℕ
  pub e_shnum : ℕ
  pub e_shstrndx : ℕ

-- `ELF32_Phdr`
pub record ProgramHeader : Type 0 where
  pub p_type : ℕ
  pub p_offset : ℕ
  pub p_vaddr : ℕ
  pub p_paddr : ℕ
  pub p_filesz : ℕ
  pub p_memsz : ℕ
  pub p_flags : ℕ
  pub p_align : ℕ

-- `file.seek(position)` and `file.read(n)`, which may be short.
unfoldable pub read_file : List ℕ → ℕ → ℕ → List ℕ
unfolding drop_first take
read_file file position n = take n (drop_first position file)

-- A field of `struct`: one, two or four bytes, the lowest first.
abbrev pub field8 : List ℕ → ℕ → ℕ
field8 raw i = elim (get_elem? raw i) [ some b ↦ b | none ↦ 0 ]

abbrev pub field16 : List ℕ → ℕ → ℕ
field16 raw i = field8 raw i + 256 * field8 raw (i + 1)

abbrev pub field32 : List ℕ → ℕ → ℕ
field32 raw i = field16 raw i + 65536 * field16 raw (i + 2)

-- `parser.unpack(stream.read(parser.size))`, where `struct` raises unless there are enough bytes.
abbrev pub unpack : {A : Type 0} → ℕ → (List ℕ → A) → List ℕ → Result A
unpack size fields raw = if length raw == size then ok (fields raw) else err struct_error

abbrev pub ident_fields : List ℕ → Ident
ident_fields raw = record {
  magic = field8 raw 0 ∷ field8 raw 1 ∷ field8 raw 2 ∷ field8 raw 3 ∷ [];
  ei_class = field8 raw 4;
  ei_data = field8 raw 5;
}

-- The layout 'HHIIIIIHHHHHH' behind the sixteen bytes of the identification.
abbrev pub header_fields : Ident → List ℕ → Header
header_fields ident raw = record {
  e_ident = ident;
  e_type = field16 raw 0;
  e_machine = field16 raw 2;
  e_entry = field32 raw 8;
  e_phoff = field32 raw 12;
  e_shoff = field32 raw 16;
  e_phnum = field16 raw 28;
  e_shnum = field16 raw 32;
  e_shstrndx = field16 raw 34;
}

abbrev pub program_fields : List ℕ → ProgramHeader
program_fields raw = record {
  p_type = field32 raw 0;
  p_offset = field32 raw 4;
  p_vaddr = field32 raw 8;
  p_paddr = field32 raw 12;
  p_filesz = field32 raw 16;
  p_memsz = field32 raw 20;
  p_flags = field32 raw 24;
  p_align = field32 raw 28;
}

abbrev pub and_then : {A B : Type 0} → Result A → (A → Result B) → Result B
and_then (ok a) k = k a
and_then (err e) k = err e

-- `ELF32_Ehdr(self.file)`
unfoldable pub parse_header : List ℕ → Result Header
unfolding read_file
parse_header file =
    and_then (unpack 16 ident_fields (read_file file 0 16))
      (λ ident. unpack 36 (header_fields ident) (read_file file 16 36))

-- `[ELF32_Phdr(self.file) for _ in range(self.hdr.e_phnum)]`, from a position of the file on.
unfoldable pub parse_programs : List ℕ → ℕ → ℕ → Result (List ProgramHeader)
unfolding read_file
parse_programs file position zero = ok []
parse_programs file position (suc n) =
    and_then (unpack 32 program_fields (read_file file position 32))
      (λ p. and_then (parse_programs file (position + 32) n) (λ ps. ok (p ∷ ps)))

-- The property `phdrs`.
unfoldable pub phdrs : List ℕ → Header → Result (List ProgramHeader)
unfolding parse_programs
phdrs file hdr = parse_programs file hdr.e_phoff hdr.e_phnum

abbrev pub is_one_of : ℕ → List ℕ → Bool
is_one_of n [] = false
is_one_of n (x ∷ xs) = n == x || is_one_of n xs

-- The values of the enumerations; the conversion of another number raises a ValueError.
abbrev pub e_types : List ℕ
e_types = 0 ∷ 1 ∷ 2 ∷ 3 ∷ 4 ∷ 0xfe00 ∷ 0xfeff ∷ 0xff00 ∷ 0xffff ∷ []

abbrev pub e_machines : List ℕ
e_machines = 0 ∷ 2 ∷ 3 ∷ 8 ∷ 0x14 ∷ 0x16 ∷ 0x28 ∷ 0x2a ∷ 0x32 ∷ 0x3e ∷ 0xb7 ∷ 0xf3 ∷ []

abbrev pub p_types : List ℕ
p_types =
    0 ∷ 1 ∷ 2 ∷ 3 ∷ 4 ∷ 5 ∷ 6 ∷ 7 ∷ 8 ∷ 0x60000000 ∷ 0x6fffffff ∷ 0x70000000 ∷ 0x6474e550
    ∷ 0x6474e551 ∷ 0x6474e552 ∷ 0x7fffffff ∷ []

-- An enumeration without `_missing_`, compared with one of its members.
abbrev pub enum_is : List ℕ → ℕ → ℕ → Result Bool
enum_is values raw wanted = if is_one_of raw values then ok (raw == wanted) else err value_error

abbrev pub assert_that : Result Bool → Result (Unit {0})
assert_that (ok true) = ok tt
assert_that (ok false) = err assertion_error
assert_that (err e) = err e

-- The assertions of `ELF32.__init__`: the magic number, 32 bits, little-endian, x86.
unfoldable pub check_header : Header → Result (Unit {0})
check_header hdr =
    let m = hdr.e_ident.magic in
    and_then
      (assert_that
        (ok (field8 m 0 == 127 && field8 m 1 == 69 && field8 m 2 == 76 && field8 m 3 == 70)))
      (λ u. and_then (assert_that (enum_is (0 ∷ 1 ∷ 2 ∷ []) hdr.e_ident.ei_class 1)) (λ u.
        and_then (assert_that (enum_is (0 ∷ 1 ∷ 2 ∷ []) hdr.e_ident.ei_data 1))
          (λ u. assert_that (enum_is e_machines hdr.e_machine 3))))

-- `ELF32(fname)`, on the contents of the file.
unfoldable pub open_elf : List ℕ → Result Header
unfolding parse_header check_header
open_elf file = and_then (parse_header file) (λ hdr. and_then (check_header hdr) (λ u. ok hdr))

-- The conversion of `p_type`, whose `_missing_` returns the number. `strict` says that Python refuses
-- what is not a member there, as it does since 3.7, and raises a TypeError.
abbrev pub p_type_of : Bool → ProgramHeader → Result ℕ
p_type_of strict p =
    if strict && not (is_one_of p.p_type p_types) then err type_error else ok p.p_type
