-- ===== src/Utility/Loader.antt =====
-- MultiInstanceLibraryLoader of lwip_py/utility/ctypes_lib_loader.py. A library is known by the name of
-- the file that it was loaded from: CDLL gives another instance for a file of another name, and the
-- same for the same. The path of the loader is taken to be that of a library.
use mathlib.Core.List.{Mem, not-mem-nil, mem-cons_self, mem-cons_of_mem, mem_of_ne_of_mem}
use mathlib.Core.Path.{subst}
use py_lwip.Prelude.{
  ◌∙◌, inl, inr, Bool-cases, ℕ, ◌≢◌, sym, ap, Option, none, some, List, [], ◌∷◌, ◌==◌, ==_iff,
  if◌then◌else◌, ℕ_discrete,
}

abbrev pub delete : ℕ → List ℕ → List ℕ
delete name [] = []
delete name (file ∷ files) =
    let rest = delete name files in if name == file then rest else file ∷ rest

-- The file of a NamedTemporaryFile that nobody holds any more is deleted.
abbrev pub delete_copy : Option ℕ → List ℕ → List ℕ
delete_copy none files = files
delete_copy (some name) files = delete name files

-- `choose` is how tempfile finds the name of a new file; the files are those that exist.
module _ (choose : List ℕ → ℕ) where
  -- `_make_tmp_lib_copy`.
  abbrev pub make_tmp_lib_copy : List ℕ → List ℕ × ℕ
  make_tmp_lib_copy files = let name = choose files in (name ∷ files, name)

  -- `__call__`: the files that exist then, and the new copy, which is the library. The copy before,
  -- `tmp_lib_copy`, is dropped when the new one exists.
  abbrev pub load_copy : (tmp_lib_copy : Option ℕ) → List ℕ → List ℕ × ℕ
  load_copy tmp_lib_copy files =
      let (with_new, name) = make_tmp_lib_copy files in (delete_copy tmp_lib_copy with_new, name)

pub mem-delete : (name n : ℕ) (files : List ℕ) → name ≢ n → Mem n files → Mem n (delete name files)
mem-delete name n [] other m = absurd (not-mem-nil m)
mem-delete name n (file ∷ files) other m = elim (Bool-cases (name == file)) [
  | inl same ↦ rw same (
      mem-delete name n files other
        (mem_of_ne_of_mem (λ e. other ((==_iff name file).0 same ∙ sym e)) m))
  | inr differs ↦ rw differs (elim (ℕ_discrete n file) [
    | yes here ↦ subst (λ x. Mem n (x ∷ delete name files)) here mem-cons_self
    | no there ↦ mem-cons_of_mem file (mem-delete name n files other (mem_of_ne_of_mem there m))
  ])
]

pub mem-delete_copy :
    (copy : Option ℕ) (n : ℕ) (files : List ℕ)
    → copy ≢ some n
    → Mem n files
    → Mem n (delete_copy copy files)
mem-delete_copy none n files other m = m
mem-delete_copy (some name) n files other m = mem-delete name n files (λ e. other (ap some e)) m
