-- ===== src/FileHandler/Directories.antt =====
-- The rest of utils/FileHandler.cpp that changes files: directories, and texts as strings.
-- `std::filesystem` is a parameter where a store of files does not show what it does.
use linux_cpp_file_server.Base.{
  Bool-cases, inl, inr, if◌then◌else◌, ℕ, zero, suc, ◌≡◌, refl, ap, ◌∙◌, Bool, true, false, Option,
  none, some,
}
use linux_cpp_file_server.Base.Bytes.{Bytes, lookup, insert, lookup-insert, bytes_eq_refl}
use linux_cpp_file_server.Base.Outcome.{Outcome, ok, ◌>>=◌, throws, runtime_error}
use linux_cpp_file_server.FileHandler.{Store, Disk, or_fail}

-- `readFileText(path)`
unfoldable pub read_text : Bytes → Store → Outcome Bytes
read_text path files = or_fail (lookup path files)

-- `writeFileText(path, data)`
unfoldable pub write_text : Disk → Bytes → Bytes → Store → Outcome Store
write_text disk path content files =
    if disk.opens path then ok (insert path content files) else throws runtime_error

-- What the program relies on of `std::filesystem`; `none` is an exception. `remove_all` counts what
-- it has removed, and a path that does not exist is nothing.
pub record FileSystem : Type 1 where
  pub State : Type 0
  pub exists : Bytes → State → Bool
  pub create_directories : Bytes → State → Option Bool × State
  pub remove_all : Bytes → State → Option ℕ × State
  pub created :
      (path : Bytes) (s : State) (b : Bool)
      → (create_directories path s).0 ≡ some b
      → exists path (create_directories path s).1 ≡ true
  pub removed :
      (path : Bytes) (s : State) (n : ℕ)
      → (remove_all path s).0 ≡ some n
      → exists path (remove_all path s).1 ≡ false
  pub removed_some :
      (path : Bytes) (s : State) → exists path s ≡ true → (remove_all path s).0 ≡ some 0 → ⊥
  pub removed_nothing :
      (path : Bytes) (s : State) → exists path s ≡ false → (remove_all path s).0 ≡ some 0

abbrev pub created_or_fail : Option Bool → Outcome Bool
created_or_fail none = throws runtime_error
created_or_fail (some b) = ok b

-- A `filesystem_error` is a `runtime_error`.
abbrev pub removed_or_fail : Option ℕ → Outcome {0} Unit
removed_or_fail none = throws runtime_error
removed_or_fail (some zero) = throws runtime_error
removed_or_fail (some (suc n)) = ok tt

module _ (fs : FileSystem) where
  unfoldable pub create_directory : Bytes → fs.State → Outcome Bool × fs.State
  create_directory path s = let (b, s') = fs.create_directories path s in (created_or_fail b, s')

  unfoldable pub remove_directory : Bytes → fs.State → Outcome {0} Unit × fs.State
  remove_directory path s = let (n, s') = fs.remove_all path s in (removed_or_fail n, s')

  removed_or_fail-some :
      (path : Bytes) (s : fs.State) (n : ℕ)
      → fs.exists path s ≡ true
      → (fs.remove_all path s).0 ≡ some n
      → removed_or_fail (some n) ≡ ok tt
  removed_or_fail-some path s zero e r = absurd (fs.removed_some path s e r)
  removed_or_fail-some path s (suc n) e r = refl

  -- A directory that was created is removed, where `remove_all` does not throw, and is then gone;
  -- to remove it once more is an error.
  pub remove_directory-create_directory :
      (path : Bytes) (s : fs.State) (b : Bool) (n : ℕ)
      → (fs.create_directories path s).0 ≡ some b
      → let s' = (create_directory path s).1 in
        (fs.remove_all path s').0 ≡ some n
        → let s'' = (remove_directory path s').1 in
          ((create_directory path s).0 ≡ ok b)
          × ((remove_directory path s').0 ≡ ok tt)
          × (fs.exists path s'' ≡ false)
          × ((remove_directory path s'').0 ≡ throws runtime_error)
  unfolding create_directory remove_directory
  remove_directory-create_directory path s b n c r =
      let s' = (fs.create_directories path s).1 in
      let gone = fs.removed path s' n r in
      (
        ap created_or_fail c,
        ap removed_or_fail r ∙ removed_or_fail-some path s' n (fs.created path s b c) r,
        gone,
        ap removed_or_fail (fs.removed_nothing path (fs.remove_all path s').1 gone),
      )

-- A text that was written is read back, where the file can be opened; nothing is written where not.
pub write_text_lem :
    (disk : Disk) (path content : Bytes) (files : Store)
    → if disk.opens path
      then (write_text disk path content files >>= read_text path) ≡ ok content
      else write_text disk path content files ≡ throws runtime_error
unfolding read_text write_text
write_text_lem disk path content files = elim (Bool-cases (disk.opens path)) [
  | inr e ↦ rw e refl
  | inl e ↦ rw e (
      ap or_fail (
        lookup-insert path path content files
        ∙ ap (λ b. if b then some content else lookup path files) (bytes_eq_refl path)))
]
