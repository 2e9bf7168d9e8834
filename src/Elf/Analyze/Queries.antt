-- ===== src/Elf/Analyze/Queries.antt =====
-- VM/ELF/analyze.py: each property and method of `ELF32` answers as the file does, and keeps what it read.
use py_vm.Prelude.{ℕ, ◌≡◌, refl, ap, ap₂, ◌∙◌, Bool, Option, none, some, List, []}
use py_vm.Outcome.{key_error, Result, ok, err, map_result}
use py_vm.Elf.{read_file, and_then, phdrs}
use py_vm.Elf.Analyze.{
  SectionHeader, Symbol, Dict, lookup, insert, read_sections, read_symbols, Analysis, Query,
  then_ask, remember, name_dynsym, name_dynstr, name_symtab, name_strtab, both_sections, sections,
  dynsym, symtab, get_section_contents, add_segments, load,
}
use py_vm.Elf.Analyze.Kept.{
  table_of, table_read, contents_of, contents_read, IsCached, IsAnswer, answers_as, answers_for,
  then_lem, unchanged, remember_lem, kept_or,
}
use py_vm.Elf.Analyze.Fields.{
  phdrs-IsAnswer, sections-IsAnswer, dynsym_kept-IsAnswer, symtab_kept-IsAnswer,
  contents_kept-IsAnswer,
}
use py_vm.Elf
use py_vm.Elf.Analyze

module _ (is_utf8 : List ℕ → Bool) where
  module _ (self : Analysis) (c : IsCached is_utf8 self) where
    table-IsAnswer :
        (keep : Dict Symbol → Analysis → Analysis) (o : Option (SectionHeader × SectionHeader))
        → ((d : Dict Symbol)
            → table_of is_utf8 self.file o ≡ ok (some d)
            → IsAnswer is_utf8 self (ok (some d)) (ok (some d), keep d self))
        → IsAnswer is_utf8 self
            (table_of is_utf8 self.file o)
            (elim o as (λ x. Result (Option (Dict Symbol)) × Analysis) [
              | none ↦ (ok none, self)
              | some (x, y) ↦ remember keep some (read_symbols is_utf8 self.file x y) self
            ])
    table-IsAnswer keep none h = unchanged is_utf8 self c (ok none)
    table-IsAnswer keep (some (x, y)) h =
        remember_lem is_utf8 self c keep some (read_symbols is_utf8 self.file x y)
          (λ d r. h d (ap (map_result some) r))

    found-IsAnswer :
        (name : List ℕ) (o : Option SectionHeader)
        → ((bytes : List ℕ)
            → contents_of self.file o ≡ ok bytes
            → IsAnswer is_utf8 self (ok bytes) (
              ok bytes,
              record self { cached_contents = insert name bytes self.cached_contents },
            ))
        → IsAnswer is_utf8 self
            (contents_of self.file o)
            (elim o as (λ x. Result (List ℕ) × Analysis) [
              | none ↦ (err key_error, self)
              | some section ↦
                  let bytes = read_file self.file section.sh_offset section.sh_size in
                  (
                    ok bytes,
                    record self { cached_contents = insert name bytes self.cached_contents },
                  )
            ])
    found-IsAnswer name none h = unchanged is_utf8 self c (err key_error)
    found-IsAnswer name (some section) h =
        h (read_file self.file section.sh_offset section.sh_size) refl

  -- The sections are those of the file; so is what follows from them.
  from_sections :
      {B : Type 0} (self : Analysis) (next : List ℕ → Dict SectionHeader → Result B) (b : B)
      (ds : Dict SectionHeader)
      → read_sections is_utf8 self.file self.hdr ≡ ok ds
      → next self.file ds ≡ ok b
      → and_then (read_sections is_utf8 self.file self.hdr) (next self.file) ≡ ok b
  from_sections self next b ds r h = ap (λ x. and_then x (next self.file)) r ∙ h

  -- A query that goes on from the sections, with an object of the same file.
  through_sections :
      {B : Type 0} (self : Analysis) (next : List ℕ → Dict SectionHeader → Result B)
      (k : Dict SectionHeader → Query B)
      → IsCached is_utf8 self
      → ((self' : Analysis) (ds : Dict SectionHeader)
          → IsCached is_utf8 self'
          → read_sections is_utf8 self'.file self'.hdr ≡ ok ds
          → IsAnswer is_utf8 self' (next self'.file ds) (k ds self'))
      → IsAnswer is_utf8 self
          (and_then (read_sections is_utf8 self.file self.hdr) (next self.file))
          (then_ask (Analyze.sections is_utf8 self) k)
  through_sections self next k c h =
      then_lem is_utf8 self (Analyze.sections is_utf8 self) _ k (next self.file)
        (sections-IsAnswer is_utf8 self c)
        (λ ds self' r c' f g. answers_as is_utf8 (ap (λ (file : List ℕ). next file ds) f) (
          answers_for is_utf8 f g
            (h self' ds c' (ap₂ (λ file hdr. read_sections is_utf8 file hdr) f g ∙ r))))

  module _ (self : Analysis) (c : IsCached is_utf8 self) where
    pub dynsym-IsAnswer :
        IsAnswer is_utf8 self
          (table_read is_utf8 name_dynsym name_dynstr self.file self.hdr)
          (Analyze.dynsym is_utf8 self)
    unfolding Analyze.dynsym
    dynsym-IsAnswer = kept_or is_utf8 self c self.cached_dynsym some _ _ c.dynsym_kept (λ e.
        through_sections self
          (λ file ds. table_of is_utf8 file (both_sections name_dynsym name_dynstr ds)) _ c
          (λ self' ds c' r.
            table-IsAnswer self' c' (λ d s. record s { cached_dynsym = some d })
              (both_sections name_dynsym name_dynstr ds)
              (λ d h. dynsym_kept-IsAnswer is_utf8 self' c' d (
                from_sections self'
                  (λ file ds. table_of is_utf8 file (both_sections name_dynsym name_dynstr ds))
                  (some d) ds r h))))

    pub symtab-IsAnswer :
        IsAnswer is_utf8 self
          (table_read is_utf8 name_symtab name_strtab self.file self.hdr)
          (Analyze.symtab is_utf8 self)
    unfolding Analyze.symtab
    symtab-IsAnswer = kept_or is_utf8 self c self.cached_symtab some _ _ c.symtab_kept (λ e.
        through_sections self
          (λ file ds. table_of is_utf8 file (both_sections name_symtab name_strtab ds)) _ c
          (λ self' ds c' r.
            table-IsAnswer self' c' (λ d s. record s { cached_symtab = some d })
              (both_sections name_symtab name_strtab ds)
              (λ d h. symtab_kept-IsAnswer is_utf8 self' c' d (
                from_sections self'
                  (λ file ds. table_of is_utf8 file (both_sections name_symtab name_strtab ds))
                  (some d) ds r h))))

    pub get_section_contents-IsAnswer :
        (name : List ℕ)
        → IsAnswer is_utf8 self
            (contents_read is_utf8 name self.file self.hdr)
            (Analyze.get_section_contents is_utf8 name self)
    unfolding Analyze.get_section_contents
    get_section_contents-IsAnswer name =
        kept_or is_utf8 self c (lookup name self.cached_contents) (λ bytes. bytes) _ _
          (c.contents_kept name)
          (λ e.
            through_sections self (λ file ds. contents_of file (lookup name ds)) _ c
              (λ self' ds c' r. found-IsAnswer self' c' name (lookup name ds) (λ bytes h.
                contents_kept-IsAnswer is_utf8 self' c' name bytes (
                  from_sections self' (λ file ds. contents_of file (lookup name ds)) bytes ds r
                    h))))

    pub load-IsAnswer :
        (strict : Bool)
        → IsAnswer is_utf8 self
            (and_then (Elf.phdrs self.file self.hdr) (λ ps. add_segments strict self.file ps []))
            (Analyze.load strict self)
    unfolding Analyze.load
    load-IsAnswer strict =
        then_lem is_utf8 self (Analyze.phdrs self) _ _ _ (phdrs-IsAnswer is_utf8 self c)
          (λ ps self' r c' f g. answers_for is_utf8 f g (
            answers_as is_utf8 (ap (λ (file : List ℕ). add_segments strict file ps []) f)
              (unchanged is_utf8 self' c' (add_segments strict self'.file ps []))))
