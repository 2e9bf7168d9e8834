-- ===== src/Examples/Analysis.antt =====
-- The theorems on VM/ELF/analyze.py at a concrete file.
use py_vm.Prelude.{
  length, ℕ, zero, suc, ◌/◌, ◌%◌, ◌≡◌, refl, Bool, true, Option, none, List, [], ◌∷◌, ◌++◌, arith,
}
use py_vm.Outcome.{key_error, ok, err}
use py_vm.Machine.{Machine, done}
use py_vm.Elf.{Header, ProgramHeader}
use py_vm.Loader.{max_memsz_of, load_segments}
use py_vm.Elf.Analyze.{Analysis, open_analysis, get_section_contents, load}
use py_vm.Elf.Analyze.Cache.{
  Request, ask_phdrs, ask_dynsym, ask_contents, ask_load, after, AnswersAsRead, answers-after,
}
use py_vm.Elf.Analyze.Holds.{IsImage, end_of}
use py_vm.Elf.Analyze.Image.{load-load_segments}
use py_vm.Examples.{machine}
use py_vm.Elf.Analyze

abbrev two_bytes : ℕ → List ℕ
two_bytes n = n % 256 ∷ n / 256 ∷ []

abbrev four_bytes : ℕ → List ℕ
four_bytes n = two_bytes (n % 65536) ++ two_bytes (n / 65536)

-- A header of a program with one segment and two sections, of which the second holds the names.
abbrev file_header : List ℕ
file_header =
    127 ∷ 69 ∷ 76 ∷ 70 ∷ 1 ∷ 1 ∷ 1 ∷ 0 ∷ 0 ∷ 0 ∷ 0 ∷ 0 ∷ 0 ∷ 0 ∷ 0 ∷ 0 ∷ []
    ++ two_bytes 2
    ++ two_bytes 3
    ++ four_bytes 1
    ++ four_bytes 8
    ++ four_bytes 52
    ++ four_bytes 84
    ++ four_bytes 0
    ++ two_bytes 52
    ++ two_bytes 32
    ++ two_bytes 1
    ++ two_bytes 40
    ++ two_bytes 2
    ++ two_bytes 1

-- Four bytes of the file, the names, at address 8, and two zeros.
abbrev file_segment : List ℕ
file_segment =
    four_bytes 1
    ++ four_bytes 164
    ++ four_bytes 8
    ++ four_bytes 8
    ++ four_bytes 4
    ++ four_bytes 6
    ++ four_bytes 5
    ++ four_bytes 4

abbrev no_section : List ℕ
no_section = zeros_of 40
  where
    zeros_of : ℕ → List ℕ
    zeros_of zero = []
    zeros_of (suc n) = 0 ∷ zeros_of n

abbrev name_section : List ℕ
name_section =
    four_bytes 1
    ++ four_bytes 3
    ++ four_bytes 0
    ++ four_bytes 0
    ++ four_bytes 164
    ++ four_bytes 4
    ++ four_bytes 0
    ++ four_bytes 0
    ++ four_bytes 1
    ++ four_bytes 0

-- The section's name is '.s'.
abbrev tiny_file : List ℕ
tiny_file = file_header ++ file_segment ++ no_section ++ name_section ++ (0 ∷ 46 ∷ 115 ∷ 0 ∷ [])

abbrev tiny_header : Header
tiny_header = record {
  e_ident = record { magic = 127 ∷ 69 ∷ 76 ∷ 70 ∷ []; ei_class = 1; ei_data = 1 };
  e_type = 2;
  e_machine = 3;
  e_entry = 8;
  e_phoff = 52;
  e_shoff = 84;
  e_phnum = 1;
  e_shnum = 2;
  e_shstrndx = 1;
}

abbrev tiny : Analysis
tiny = record {
  file = tiny_file;
  hdr = tiny_header;
  cached_sections = none;
  cached_phdrs = none;
  cached_dynsym = none;
  cached_symtab = none;
  cached_contents = [];
}

abbrev all_utf8 : List ℕ → Bool
all_utf8 text = true

opened_tiny : open_analysis tiny_file ≡ ok tiny
unfolding open_analysis
opened_tiny = refl

-- The contents of the section, and of one that is not there.
contents_of_tiny :
    ((get_section_contents all_utf8 (46 ∷ 115 ∷ []) tiny).0 ≡ ok (0 ∷ 46 ∷ 115 ∷ 0 ∷ []))
    × ((get_section_contents all_utf8 (46 ∷ []) tiny).0 ≡ err key_error)
unfolding get_section_contents
contents_of_tiny = (refl, refl)

abbrev requests : List Request
requests = ask_contents (46 ∷ 115 ∷ []) ∷ ask_dynsym ∷ ask_load true ∷ ask_phdrs ∷ []

answers-after_example : AnswersAsRead all_utf8 tiny_file tiny.hdr (after all_utf8 requests tiny)
answers-after_example = answers-after all_utf8 tiny_file tiny requests opened_tiny

abbrev tiny_segment : ProgramHeader
tiny_segment = record {
  p_type = 1;
  p_offset = 164;
  p_vaddr = 8;
  p_paddr = 8;
  p_filesz = 4;
  p_memsz = 6;
  p_flags = 5;
  p_align = 4;
}

headers_of_tiny : (Analyze.phdrs tiny).0 ≡ ok (tiny_segment ∷ [])
unfolding Analyze.phdrs
headers_of_tiny = refl

load-load_segments_example :
    (image : List ℕ) × (vm' : Machine) × ((Analyze.load true tiny).0 ≡ ok image)
    × (load_segments true tiny_file (tiny_segment ∷ []) (machine []) ≡ done tt vm')
    × IsImage vm'.mem image
    × (vm' ≡ record (machine []) { mem = record (machine []).mem { cells = vm'.mem.cells } })
    × ((m : Option ℕ) × (max_memsz_of true (tiny_segment ∷ []) ≡ ok m) × (length image ≡ end_of m))
load-load_segments_example =
    load-load_segments true tiny (tiny_segment ∷ []) (machine []) headers_of_tiny
      ((refl, refl, λ this. (omega arith, omega arith, omega arith)), tt) (λ i. refl)
