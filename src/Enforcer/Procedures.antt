-- ===== src/Enforcer/Procedures.antt =====
-- The NFS procedures that InitJob of src/NFSEnforcer/NFSEnforcer.cpp knows; their codecs have names only.
use workload_compactor.Base.{ℕ, ◌==◌, ◌-◌, if◌then◌else◌, List, [], ◌∷◌, Option, none, some}

-- `xdrproc_t`: the codecs of the NFS arguments and results.
pub data XdrProc : Type 0 where
  nfs_fh3 : XdrProc
  setattr3args : XdrProc
  diropargs3 : XdrProc
  access3args : XdrProc
  read3args : XdrProc
  write3args : XdrProc
  create3args : XdrProc
  mkdir3args : XdrProc
  symlink3args : XdrProc
  mknod3args : XdrProc
  rename3args : XdrProc
  link3args : XdrProc
  readdir3args : XdrProc
  readdirplus3args : XdrProc
  commit3args : XdrProc
  getattr3res : XdrProc
  wccstat3 : XdrProc
  lookup3res : XdrProc
  access3res : XdrProc
  readlink3res : XdrProc
  read3res : XdrProc
  write3res : XdrProc
  diropres3 : XdrProc
  rename3res : XdrProc
  link3res : XdrProc
  readdir3res : XdrProc
  readdirplus3res : XdrProc
  fsstat3res : XdrProc
  fsinfo3res : XdrProc
  pathconf3res : XdrProc
  commit3res : XdrProc

-- The procedures of src/prot/nfs3_prot.x from NFSPROC3_GETATTR on, by number.
unfoldable pub procedures : List (XdrProc × XdrProc)
procedures =
    (nfs_fh3, getattr3res)
    ∷ (setattr3args, wccstat3)
    ∷ (diropargs3, lookup3res)
    ∷ (access3args, access3res)
    ∷ (nfs_fh3, readlink3res)
    ∷ (read3args, read3res)
    ∷ (write3args, write3res)
    ∷ (create3args, diropres3)
    ∷ (mkdir3args, diropres3)
    ∷ (symlink3args, diropres3)
    ∷ (mknod3args, diropres3)
    ∷ (diropargs3, wccstat3)
    ∷ (diropargs3, wccstat3)
    ∷ (rename3args, rename3res)
    ∷ (link3args, link3res)
    ∷ (readdir3args, readdir3res)
    ∷ (readdirplus3args, readdirplus3res)
    ∷ (nfs_fh3, fsstat3res)
    ∷ (nfs_fh3, fsinfo3res)
    ∷ (nfs_fh3, pathconf3res)
    ∷ (commit3args, commit3res)
    ∷ []

-- The codecs of a procedure.
unfoldable pub codecs_at : ℕ → List (XdrProc × XdrProc) → Option (XdrProc × XdrProc)
codecs_at n [] = none
codecs_at n (p ∷ ps) = if n == 1 then some p else codecs_at (n - 1) ps

unfoldable pub codecs_of : ℕ → Option (XdrProc × XdrProc)
codecs_of rq_proc = codecs_at rq_proc procedures
