-- ===== src/Elf/Analyze/Fields.antt =====
-- VM/ELF/analyze.py, each of the fields that an `ELF32` keeps.
use py_vm.Prelude.{
  ℕ, ◌≡◌, refl, sym, ap, ◌∙◌, inl, inr, Bool, some, List, arith, if◌then◌else◌, Bool-cases,
}
use py_vm.Outcome.{Result, ok, err, map_result}
use py_vm.Elf.{phdrs}
use py_vm.Elf.Analyze.{
  Symbol, Dict, same_name, lookup, insert, read_sections, Analysis, name_dynsym, name_dynstr,
  name_symtab, name_strtab, sections,
}
use py_vm.Elf.Analyze.Names.{some_same, same_name_eq, lookup-insert}
use py_vm.Elf.Analyze.Kept.{
  table_read, contents_read, IsCached, IsAnswer, answers_as, remember_lem, kept_or,
}
use py_vm.Elf
use py_vm.Elf.Analyze

module _ (is_utf8 : List ℕ → Bool) where
  module _ (self : Analysis) (c : IsCached is_utf8 self) where
    map_same : {A : Type 0} (r : Result A) → map_result (λ a. a) r ≡ r
    map_same (ok a) = refl
    map_same (err e) = refl

    pub phdrs-IsAnswer : IsAnswer is_utf8 self (Elf.phdrs self.file self.hdr) (Analyze.phdrs self)
    unfolding Analyze.phdrs
    phdrs-IsAnswer =
        kept_or is_utf8 self c self.cached_phdrs (λ ps. ps) _ _ c.phdrs_kept
          (λ e. answers_as is_utf8 (map_same (Elf.phdrs self.file self.hdr)) (
            remember_lem is_utf8 self c (λ ps s. record s { cached_phdrs = some ps }) (λ ps. ps) _
              (λ ps r. record {
                answer = refl;
                kept = record {
                  sections_kept = c.sections_kept;
                  phdrs_kept = λ d h. some_same (Elf.phdrs self.file self.hdr) ps d r h;
                  dynsym_kept = c.dynsym_kept;
                  symtab_kept = c.symtab_kept;
                  contents_kept = c.contents_kept;
                };
                same_file = refl;
                same_hdr = refl;
              })))

    pub sections-IsAnswer :
        IsAnswer is_utf8 self
          (read_sections is_utf8 self.file self.hdr)
          (Analyze.sections is_utf8 self)
    unfolding Analyze.sections
    sections-IsAnswer =
        kept_or is_utf8 self c self.cached_sections (λ ps. ps) _ _ c.sections_kept
          (λ e. answers_as is_utf8 (map_same (read_sections is_utf8 self.file self.hdr)) (
            remember_lem is_utf8 self c (λ ps s. record s { cached_sections = some ps }) (λ ps. ps)
              _
              (λ ps r. record {
                answer = refl;
                kept = record {
                  sections_kept =
                      λ d h. some_same (read_sections is_utf8 self.file self.hdr) ps d r h;
                  phdrs_kept = c.phdrs_kept;
                  dynsym_kept = c.dynsym_kept;
                  symtab_kept = c.symtab_kept;
                  contents_kept = c.contents_kept;
                };
                same_file = refl;
                same_hdr = refl;
              })))

    pub dynsym_kept-IsAnswer :
        (d : Dict Symbol)
        → table_read is_utf8 name_dynsym name_dynstr self.file self.hdr ≡ ok (some d)
        → IsAnswer is_utf8 self (ok (some d)) (ok (some d), record self { cached_dynsym = some d })
    dynsym_kept-IsAnswer d r = record {
      answer = refl;
      kept = record {
        sections_kept = c.sections_kept;
        phdrs_kept = c.phdrs_kept;
        dynsym_kept = λ d' h. r ∙ ap ok h;
        symtab_kept = c.symtab_kept;
        contents_kept = c.contents_kept;
      };
      same_file = refl;
      same_hdr = refl;
    }

    pub symtab_kept-IsAnswer :
        (d : Dict Symbol)
        → table_read is_utf8 name_symtab name_strtab self.file self.hdr ≡ ok (some d)
        → IsAnswer is_utf8 self (ok (some d)) (ok (some d), record self { cached_symtab = some d })
    symtab_kept-IsAnswer d r = record {
      answer = refl;
      kept = record {
        sections_kept = c.sections_kept;
        phdrs_kept = c.phdrs_kept;
        dynsym_kept = c.dynsym_kept;
        symtab_kept = λ d' h. r ∙ ap ok h;
        contents_kept = c.contents_kept;
      };
      same_file = refl;
      same_hdr = refl;
    }

    kept_contents :
        (name bytes q found : List ℕ)
        → contents_read is_utf8 name self.file self.hdr ≡ ok bytes
        → (if same_name q name then some bytes else lookup q self.cached_contents) ≡ some found
        → contents_read is_utf8 q self.file self.hdr ≡ ok found
    kept_contents name bytes q found r h = elim (Bool-cases (same_name q name)) [
      | inl same ↦
          some_same (contents_read is_utf8 q self.file self.hdr) bytes found
            (ap (λ (xs : List ℕ). contents_read is_utf8 xs self.file self.hdr)
                (same_name_eq q name same)
              ∙ r)
            (ground (arith, h))
      | inr other ↦ c.contents_kept q found (ground (arith, h))
    ]

    pub contents_kept-IsAnswer :
        (name bytes : List ℕ)
        → contents_read is_utf8 name self.file self.hdr ≡ ok bytes
        → IsAnswer is_utf8 self
            (ok bytes)
            (ok bytes, record self { cached_contents = insert name bytes self.cached_contents })
    contents_kept-IsAnswer name bytes r = record {
      answer = refl;
      kept = record {
        sections_kept = c.sections_kept;
        phdrs_kept = c.phdrs_kept;
        dynsym_kept = c.dynsym_kept;
        symtab_kept = c.symtab_kept;
        contents_kept = λ q found h.
            kept_contents name bytes q found r
              (sym (lookup-insert q name bytes self.cached_contents) ∙ h);
      };
      same_file = refl;
      same_hdr = refl;
    }
