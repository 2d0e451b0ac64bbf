-- ===== src/Examples/Mkfs.antt =====
-- An archive of one file of 5 bytes, `d/f`, and the zero block that ends it.
use tarfs.Base.{ℕ, Bool-cases, inl, inr, ◌<◌, [], ◌∷◌, ◌==◌, if◌then◌else◌}
use tarfs.Meta.{PosixHeader, tarfs_regtype}
use tarfs.Manager.{header, contents, World}
use tarfs.Manager.Archive.{Tarred}

abbrev pub file_header : PosixHeader
file_header = record {
  name = b'd' ∷ b'/' ∷ b'f' ∷ 0 ∷ [];
  mode = b'6' ∷ b'4' ∷ b'4' ∷ 0 ∷ [];
  uid = b'0' ∷ 0 ∷ [];
  gid = b'0' ∷ 0 ∷ [];
  size = b'5' ∷ 0 ∷ [];
  mtime = b'7' ∷ 0 ∷ [];
  chksum = 0 ∷ [];
  typeflag = tarfs_regtype;
  linkname = 0 ∷ [];
  magic = b'u' ∷ 0 ∷ [];
}

abbrev pub end_header : PosixHeader
end_header = record {
  name = 0 ∷ [];
  mode = 0 ∷ [];
  uid = 0 ∷ [];
  gid = 0 ∷ [];
  size = 0 ∷ [];
  mtime = 0 ∷ [];
  chksum = 0 ∷ [];
  typeflag = 0;
  linkname = 0 ∷ [];
  magic = 0 ∷ [];
}

abbrev pub one_file : World
one_file = record {
  capacity = 2000;
  size = 3;
  blocks =
      λ b. if b == 0 then header file_header else if b == 1 then contents [] else header end_header;
  memory = 1_000_000;
  tv_sec = 7;
  tv_usec = 5;
}

pub one_file-Tarred : (b : ℕ) → b < 3 → Tarred (one_file.blocks b)
one_file-Tarred b h = elim (Bool-cases (b == 0)) [
  | inl z ↦ rw z tt
  | inr nz ↦ elim (Bool-cases (b == 1)) [ inl e ↦ rw (nz, e) tt | inr ne ↦ rw (nz, ne) tt ]
]
