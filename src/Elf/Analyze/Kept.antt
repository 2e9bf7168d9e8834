-- ===== src/Elf/Analyze/Kept.antt =====
-- VM/ELF/analyze.py, what an `ELF32` keeps of what it read, and rules for its answers.
use py_vm.Prelude.{ℕ, ◌≡◌, refl, sym, ap, ◌∙◌, Bool, Option, none, some, List}
use py_vm.Outcome.{key_error, Result, ok, err, map_result}
use py_vm.Elf.{Header, ProgramHeader, read_file, and_then, phdrs}
use py_vm.Elf.Analyze.{
  SectionHeader, Symbol, Dict, lookup, read_sections, read_symbols, Analysis, Query, then_ask,
  remember, name_dynsym, name_dynstr, name_symtab, name_strtab, both_sections,
}
use py_vm.Elf

-- What the two tables of symbols and the contents of a section are, without anything kept.
abbrev pub table_of :
    (List ℕ → Bool)
    → List ℕ
    → Option (SectionHeader × SectionHeader)
    → Result (Option (Dict Symbol))
table_of is_utf8 file none = ok none
table_of is_utf8 file (some (x, y)) = map_result some (read_symbols is_utf8 file x y)

abbrev pub table_read :
    (List ℕ → Bool) → List ℕ → List ℕ → List ℕ → Header → Result (Option (Dict Symbol))
table_read is_utf8 a b file hdr =
    and_then (read_sections is_utf8 file hdr) (λ ds. table_of is_utf8 file (both_sections a b ds))

abbrev pub contents_of : List ℕ → Option SectionHeader → Result (List ℕ)
contents_of file none = err key_error
contents_of file (some section) = ok (read_file file section.sh_offset section.sh_size)

abbrev pub contents_read : (List ℕ → Bool) → List ℕ → List ℕ → Header → Result (List ℕ)
contents_read is_utf8 name file hdr =
    and_then (read_sections is_utf8 file hdr) (λ ds. contents_of file (lookup name ds))

-- All that is kept is what the file says.
pub record IsCached (is_utf8 : List ℕ → Bool) (self : Analysis) : Type 0 where
  pub sections_kept :
      (d : Dict SectionHeader)
      → self.cached_sections ≡ some d
      → read_sections is_utf8 self.file self.hdr ≡ ok d
  pub phdrs_kept :
      (d : List ProgramHeader) → self.cached_phdrs ≡ some d → Elf.phdrs self.file self.hdr ≡ ok d
  pub dynsym_kept :
      (d : Dict Symbol)
      → self.cached_dynsym ≡ some d
      → table_read is_utf8 name_dynsym name_dynstr self.file self.hdr ≡ ok (some d)
  pub symtab_kept :
      (d : Dict Symbol)
      → self.cached_symtab ≡ some d
      → table_read is_utf8 name_symtab name_strtab self.file self.hdr ≡ ok (some d)
  pub contents_kept :
      (name bytes : List ℕ)
      → lookup name self.cached_contents ≡ some bytes
      → contents_read is_utf8 name self.file self.hdr ≡ ok bytes

-- The answer `r`, and an object of the same file whose kept results are right.
pub record IsAnswer {A : Type 0} (is_utf8 : List ℕ → Bool) (self : Analysis) (r : Result A)
    (x : Result A × Analysis) : Type 0 where
  pub answer : x.0 ≡ r
  pub kept : IsCached is_utf8 x.1
  pub same_file : x.1.file ≡ self.file
  pub same_hdr : x.1.hdr ≡ self.hdr

module _ (is_utf8 : List ℕ → Bool) where
  pub answers_as :
      {A : Type 0} {self : Analysis} {r r' : Result A} {x : Result A × Analysis}
      → r ≡ r'
      → IsAnswer is_utf8 self r x
      → IsAnswer is_utf8 self r' x
  answers_as e h = record {
    answer = h.answer ∙ e;
    kept = h.kept;
    same_file = h.same_file;
    same_hdr = h.same_hdr;
  }

  -- An answer of an object of the same file.
  pub answers_for :
      {A : Type 0} {self self' : Analysis} {r : Result A} {x : Result A × Analysis}
      → self'.file ≡ self.file
      → self'.hdr ≡ self.hdr
      → IsAnswer is_utf8 self' r x
      → IsAnswer is_utf8 self r x
  answers_for f g h = record {
    answer = h.answer;
    kept = h.kept;
    same_file = h.same_file ∙ f;
    same_hdr = h.same_hdr ∙ g;
  }

  pub then_lem :
      {A B : Type 0} (self : Analysis) (x : Result A × Analysis) (r : Result A) (k : A → Query B)
      (k' : A → Result B)
      → IsAnswer is_utf8 self r x
      → ((a : A) (self' : Analysis)
          → r ≡ ok a
          → IsCached is_utf8 self'
          → self'.file ≡ self.file
          → self'.hdr ≡ self.hdr
          → IsAnswer is_utf8 self (k' a) (k a self'))
      → IsAnswer is_utf8 self (and_then r k') (then_ask x k)
  then_lem self (ok a, self') r k k' h next =
      answers_as (ap (λ r. and_then r k') h.answer)
        (next a self' (sym h.answer) h.kept h.same_file h.same_hdr)
  then_lem self (err e, self') r k k' h next = record {
    answer = ap (λ r. and_then r k') h.answer;
    kept = h.kept;
    same_file = h.same_file;
    same_hdr = h.same_hdr;
  }

  module _ (self : Analysis) (c : IsCached is_utf8 self) where
    pub unchanged : {A : Type 0} (r : Result A) → IsAnswer is_utf8 self r (r, self)
    unchanged r = record { answer = refl; kept = c; same_file = refl; same_hdr = refl }

    pub remember_lem :
        {A B : Type 0} (keep : A → Analysis → Analysis) (shown : A → B) (r : Result A)
        → ((a : A) → r ≡ ok a → IsAnswer is_utf8 self (ok (shown a)) (ok (shown a), keep a self))
        → IsAnswer is_utf8 self (map_result shown r) (remember keep shown r self)
    remember_lem keep shown (ok a) h = h a refl
    remember_lem keep shown (err e) h = unchanged (err e)

    pub kept_or :
        {A B : Type 0} (o : Option A) (shown : A → B) (r : Result B) (q : Result B × Analysis)
        → ((a : A) → o ≡ some a → r ≡ ok (shown a))
        → (o ≡ none → IsAnswer is_utf8 self r q)
        → IsAnswer is_utf8 self r
            (elim o as (λ x. Result B × Analysis) [ some a ↦ (ok (shown a), self) | none ↦ q ])
    kept_or none shown r q h k = k refl
    kept_or (some a) shown r q h k = answers_as (sym (h a refl)) (unchanged (ok (shown a)))
