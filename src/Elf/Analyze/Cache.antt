-- ===== src/Elf/Analyze/Cache.antt =====
-- VM/ELF/analyze.py: a property or method of `ELF32` answers as the file does, whatever was asked before.
use py_vm.Prelude.{ℕ, ◌≡◌, refl, ap, ap₂, ◌∙◌, Bool, none, List, [], ◌∷◌}
use py_vm.Outcome.{Result, ok, err}
use py_vm.Elf.{Header, and_then, phdrs, open_elf}
use py_vm.Elf.Analyze.{
  lookup, read_sections, Analysis, open_analysis, name_dynsym, name_dynstr, name_symtab,
  name_strtab, sections, dynsym, symtab, get_section_contents, add_segments, load,
}
use py_vm.Elf.Analyze.Kept.{table_read, contents_read, IsCached, IsAnswer}
use py_vm.Elf.Analyze.Fields.{phdrs-IsAnswer, sections-IsAnswer}
use py_vm.Elf.Analyze.Queries.{
  dynsym-IsAnswer, symtab-IsAnswer, get_section_contents-IsAnswer, load-IsAnswer,
}
use py_vm.Elf
use py_vm.Elf.Analyze

-- What may be asked of an object, and the object after a list of requests, whether they are answered or
-- refused.
pub data Request : Type 0 where
  ask_sections ask_phdrs ask_dynsym ask_symtab : Request
  ask_contents : List ℕ → Request
  ask_load : Bool → Request

abbrev asked : (List ℕ → Bool) → Request → Analysis → Analysis
asked is_utf8 ask_sections self = (Analyze.sections is_utf8 self).1
asked is_utf8 ask_phdrs self = (Analyze.phdrs self).1
asked is_utf8 ask_dynsym self = (Analyze.dynsym is_utf8 self).1
asked is_utf8 ask_symtab self = (Analyze.symtab is_utf8 self).1
asked is_utf8 (ask_contents name) self = (Analyze.get_section_contents is_utf8 name self).1
asked is_utf8 (ask_load strict) self = (Analyze.load strict self).1

abbrev pub after : (List ℕ → Bool) → List Request → Analysis → Analysis
after is_utf8 [] self = self
after is_utf8 (r ∷ rs) self = after is_utf8 rs (asked is_utf8 r self)

-- The invariant of an object, of the file and header that it was opened with.
abbrev IsOf : (List ℕ → Bool) → List ℕ → Header → Analysis → Type 0
IsOf is_utf8 file hdr self = IsCached is_utf8 self × (self.file ≡ file) × (self.hdr ≡ hdr)

module _ (is_utf8 : List ℕ → Bool) (file : List ℕ) (hdr : Header) where
  kept_by :
      {A : Type 0} (self : Analysis) (r : Result A) (x : Result A × Analysis)
      → IsOf is_utf8 file hdr self
      → IsAnswer is_utf8 self r x
      → IsOf is_utf8 file hdr x.1
  kept_by self r x (c, f, g) a = (a.kept, a.same_file ∙ f, a.same_hdr ∙ g)

  asked-IsOf :
      (r : Request) (self : Analysis)
      → IsOf is_utf8 file hdr self
      → IsOf is_utf8 file hdr (asked is_utf8 r self)
  asked-IsOf ask_sections self c = kept_by self _ _ c (sections-IsAnswer is_utf8 self c.0)
  asked-IsOf ask_phdrs self c = kept_by self _ _ c (phdrs-IsAnswer is_utf8 self c.0)
  asked-IsOf ask_dynsym self c = kept_by self _ _ c (dynsym-IsAnswer is_utf8 self c.0)
  asked-IsOf ask_symtab self c = kept_by self _ _ c (symtab-IsAnswer is_utf8 self c.0)
  asked-IsOf (ask_contents name) self c =
      kept_by self _ _ c (get_section_contents-IsAnswer is_utf8 self c.0 name)
  asked-IsOf (ask_load strict) self c = kept_by self _ _ c (load-IsAnswer is_utf8 self c.0 strict)

  after-IsOf :
      (rs : List Request) (self : Analysis)
      → IsOf is_utf8 file hdr self
      → IsOf is_utf8 file hdr (after is_utf8 rs self)
  after-IsOf [] self c = c
  after-IsOf (r ∷ rs) self c = after-IsOf rs (asked is_utf8 r self) (asked-IsOf r self c)

-- What a freshly read file says to each request.
abbrev pub AnswersAsRead : (List ℕ → Bool) → List ℕ → Header → Analysis → Type 0
AnswersAsRead is_utf8 file hdr self =
    ((Analyze.sections is_utf8 self).0 ≡ read_sections is_utf8 file hdr)
    × ((Analyze.phdrs self).0 ≡ Elf.phdrs file hdr)
    × ((Analyze.dynsym is_utf8 self).0 ≡ table_read is_utf8 name_dynsym name_dynstr file hdr)
    × ((Analyze.symtab is_utf8 self).0 ≡ table_read is_utf8 name_symtab name_strtab file hdr)
    × ((name : List ℕ)
        → (Analyze.get_section_contents is_utf8 name self).0 ≡ contents_read is_utf8 name file hdr)
    × ((strict : Bool)
        → (Analyze.load strict self).0
          ≡ and_then (Elf.phdrs file hdr) (λ ps. add_segments strict file ps []))

opened-IsOf :
    (is_utf8 : List ℕ → Bool) (file : List ℕ) (hdr : Header)
    → IsOf is_utf8 file hdr (record {
      file = file;
      hdr = hdr;
      cached_sections = none;
      cached_phdrs = none;
      cached_dynsym = none;
      cached_symtab = none;
      cached_contents = [];
    })
unfolding lookup
opened-IsOf is_utf8 file hdr = (
  record {
    sections_kept = λ d h. cc;
    phdrs_kept = λ d h. cc;
    dynsym_kept = λ d h. cc;
    symtab_kept = λ d h. cc;
    contents_kept = λ name d h. cc;
  },
  refl,
  refl,
)

answers_of :
    (is_utf8 : List ℕ → Bool) (file : List ℕ) (hdr : Header) (self : Analysis)
    → IsOf is_utf8 file hdr self
    → AnswersAsRead is_utf8 file hdr self
answers_of is_utf8 file hdr self (c, f, g) = (
  (sections-IsAnswer is_utf8 self c).answer ∙ ap₂ (read_sections is_utf8) f g,
  (phdrs-IsAnswer is_utf8 self c).answer ∙ ap₂ Elf.phdrs f g,
  (dynsym-IsAnswer is_utf8 self c).answer ∙ ap₂ (table_read is_utf8 name_dynsym name_dynstr) f g,
  (symtab-IsAnswer is_utf8 self c).answer ∙ ap₂ (table_read is_utf8 name_symtab name_strtab) f g,
  (λ name.
      (get_section_contents-IsAnswer is_utf8 self c name).answer
      ∙ ap₂ (contents_read is_utf8 name) f g),
  (λ strict.
      (load-IsAnswer is_utf8 self c strict).answer
      ∙ ap₂ (λ file hdr. and_then (Elf.phdrs file hdr) (λ ps. add_segments strict file ps [])) f g),
)

opened_self :
    (is_utf8 : List ℕ → Bool) (file : List ℕ) (self : Analysis) (r : Result Header)
    → and_then r (λ header. ok (record {
      file = file;
      hdr = header;
      cached_sections = none;
      cached_phdrs = none;
      cached_dynsym = none;
      cached_symtab = none;
      cached_contents = [];
    }))
      ≡ ok self
    → IsOf is_utf8 file self.hdr self
opened_self is_utf8 file self (ok hdr) h =
    let e = ap (λ (r : Result Analysis). elim r [ ok a ↦ a | err e ↦ self ]) h in
    rw (← e) (opened-IsOf is_utf8 file hdr)
opened_self is_utf8 file self (err e) h = cc

-- The analyser keeps what it reads, and it never shows. For an object that was opened on a file and any
-- requests to it, answered or refused: sections, program headers, both tables of symbols, the contents
-- of every section and the image are then those that reading the file again gives, with the same
-- exceptions.
pub answers-after :
    (is_utf8 : List ℕ → Bool) (file : List ℕ) (self : Analysis) (requests : List Request)
    → open_analysis file ≡ ok self
    → AnswersAsRead is_utf8 file self.hdr (after is_utf8 requests self)
unfolding open_analysis
answers-after is_utf8 file self requests opened =
    answers_of is_utf8 file self.hdr (after is_utf8 requests self) (
      after-IsOf is_utf8 file self.hdr requests self
        (opened_self is_utf8 file self (open_elf file) opened))
