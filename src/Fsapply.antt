-- ===== src/Fsapply.antt =====
-- cmd/bcpfs-perms/fsapply/: setting up the trees of directories. What the scripts and the filesystem
-- do is a parameter, the record System.
pub mod Scripts
pub mod Trees
pub mod Plan
pub mod Agrees
use bcpfs.Prelude.{ℕ, List, Bool, Outcome}
use bcpfs.Prelude.Bytes.{Bytes}

-- The commands of the scripts in apply-sh.go. A script stops at the first command that fails.
pub data Command : Type 0 where
  -- if ! [ -d path ]; then mkdir path; fi
  mkdir_missing : Bytes → Command
  -- chown owner path
  chown : Bytes → Bytes → Command
  -- chmod g+s path
  chmod_sgid : Bytes → Command
  -- setfacl -M- path, setfacl -X- path, with lines on stdin
  setfacl_modify setfacl_remove : Bytes → List Bytes → Command
  -- find path -mindepth 1, with chgrp where the gid differs, and chmod g+s where it is missing
  chgrp_below : Bytes → ℕ → Command
  chmod_sgid_below : Bytes → Command
  -- find path -mindepth 1 -type d, or -type f, with setfacl --modify-file
  setfacl_dirs_below setfacl_files_below : Bytes → List Bytes → Command

abbrev pub Script : Type 0
Script = List Command

pub data ChildKind : Type 0 where
  child_dir child_link child_other : ChildKind

pub record Child : Type 0 where
  pub name : Bytes
  pub kind : ChildKind

-- Where a run is: it goes on in a state of the filesystem; or an error has come up, or a panic, which
-- ends the program, in the state that it left.
pub data Run (E S : Type 0) : Type 0 where
  going : S → Run E S
  failed : E → S → Run E S
  crashed : S → Run E S

-- `if err != nil { return }`
infixl 5 ◌>>=◌
abbrev pub ◌>>=◌ : {E S : Type 0} → Run E S → (S → Run E S) → Run E S
going s >>= f = f s
failed e s >>= f = failed e s
crashed s >>= f = crashed s

-- What `os.Remove()` does; `ENOTEMPTY` is told from the other errors.
pub data Removal (E S : Type 0) : Type 0 where
  removed : S → Removal E S
  not_empty remove_failed : E → Removal E S

-- The filesystem, in a state `S`.
pub record System (E S : Type 0) : Type 0 where
  pub exec : Command → S → Run E S
  -- isDestSymlink(dest, path)
  pub is_dest_symlink : Bytes → Bytes → S → Bool
  -- os.Symlink(dest, path)
  pub symlink : Bytes → Bytes → S → Run E S
  -- ioutil.ReadDir(path)
  pub read_dir : Bytes → S → Outcome E (List Child)
  -- os.Remove(path)
  pub remove : Bytes → S → Removal E S
