-- ===== src/Workers/Workspace.antt =====
-- workers/workspace.py: where the files of a task go. The file system is a parameter.
use hookclose.Prelude.{
  String, format, take_chars, Bool, true, false, Option, none, some, List, [], ◌∷◌, if◌then◌else◌,
  ◌≡◌, refl, arith, All, startswith,
}
use hookclose.Tasks.{Json}
use hookclose.Workers.Contracts.{FilePatch}

-- `(root / path).resolve()` and `root.resolve()`, as texts; the first raises if the path is no text.
-- `write_text`, with the directories made, raises or writes.
pub record FileSystem : Type 0 where
  pub resolve : String → Json → Option String
  pub resolve_root : String → String
  pub writable : String → Json → Bool

pub record Workspace : Type 0 where
  pub root : String
  pub branch : String
  pub git_enabled : Bool

-- A file that was written: where, and what.
abbrev pub Written : Type 0
Written = String × Json

module _ (fs : FileSystem) (root : String) where
  -- The target of a patch, if it may be written.
  abbrev pub guarded : Option String → Option String
  guarded none = none
  guarded (some target) = if startswith (fs.resolve_root root) target then some target else none

  abbrev pub write_one : FilePatch → Option String → Option Written
  write_one patch none = none
  write_one patch (some target) =
      if fs.writable target patch.content then some (target, patch.content) else none

  -- An exception leaves the loop; the files of the later patches are then not written.
  abbrev pub after_write : Option Written → Bool × List Written → Bool × List Written
  after_write none (done, files) = (false, [])
  after_write (some file) (done, files) = (done, file ∷ files)

  -- Whether all patches were written, and the files that were written before an exception.
  unfoldable pub write_patches : List FilePatch → Bool × List Written
  write_patches [] = (true, [])
  write_patches (patch ∷ rest) =
      after_write (write_one patch (guarded (fs.resolve root patch.path))) (write_patches rest)

write_one-guarded :
    (fs : FileSystem) (root : String) (patch : FilePatch) (resolved : Option String)
    (file : Written)
    → write_one fs root patch (guarded fs root resolved) ≡ some file
    → startswith (fs.resolve_root root) file.0 ≡ true
write_one-guarded fs root patch none file h = cc
write_one-guarded fs root patch (some target) file h = ground arith

-- No patch is written outside what the guard allows: every file that `write_patches` writes, be it
-- before an exception, has a path that starts with that of the workspace.
pub write_patches-guarded :
    (fs : FileSystem) (root : String) (patches : List FilePatch)
    → All
        (λ file. startswith (fs.resolve_root root) file.0 ≡ true)
        (write_patches fs root patches).1
unfolding write_patches
write_patches-guarded fs root [] = tt
write_patches-guarded fs root (patch ∷ rest) =
    go (write_one fs root patch (guarded fs root (fs.resolve root patch.path)))
      (write_one-guarded fs root patch (fs.resolve root patch.path))
      (write_patches-guarded fs root rest)
  where
    go :
        (o : Option Written)
        → ((file : Written) → o ≡ some file → startswith (fs.resolve_root root) file.0 ≡ true)
        → All
            (λ file. startswith (fs.resolve_root root) file.0 ≡ true)
            (write_patches fs root rest).1
        → All
            (λ file. startswith (fs.resolve_root root) file.0 ≡ true)
            (after_write fs root o (write_patches fs root rest)).1
    go none inside later = tt
    go (some file) inside later = (inside file refl, later)

-- A patch that the guard allows in this workspace, and that the file system then takes.
abbrev pub IsWritable : FileSystem → String → FilePatch → Type 0
IsWritable fs root patch =
    (target : String) × (fs.resolve root patch.path ≡ some target)
    × (startswith (fs.resolve_root root) target ≡ true)
    × (fs.writable target patch.content ≡ true)

pub write_patches-writes :
    (fs : FileSystem) (root : String) (patches : List FilePatch)
    → All (IsWritable fs root) patches
    → (write_patches fs root patches).0 ≡ true
unfolding write_patches
write_patches-writes fs root [] all = refl
write_patches-writes fs root (patch ∷ rest) ((target, resolved, inside, taken), all) =
    let ih = write_patches-writes fs root rest all in
    rw resolved (rw (inside, write_patches) (rw taken ih))

-- `task/` and the first twelve characters of the id
unfoldable pub branch_name : String → String
branch_name task_id = format ("task/" ∷ take_chars 12 task_id ∷ [])
