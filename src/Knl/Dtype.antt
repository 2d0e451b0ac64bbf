-- ===== src/Knl/Dtype.antt =====
-- The type that `tarfs_iterate` gives for an entry that mkfs has made.
use tarfs.Base.{ℕ, ◌≡◌, refl, inl, inr, Bool-cases, ◌==◌}
use tarfs.Meta.{ftype_dinode2dir, tarfs_ifmt, tarfs_ifreg, tarfs_ifdir, tarfs_iflnk}
use Prim.Native.Nat.{bit_and}
use tarfs.Knl.Dir.{FileTypes, get_dtype}

-- For the type that `tarfs_create` writes in an entry, whatever the mode of its inode, `getDtype`
-- answers DT_UNKNOWN.
pub get_dtype-ftype_dinode2dir :
    (dt : FileTypes) (mode : ℕ) → get_dtype dt (ftype_dinode2dir mode) ≡ dt.dt_unknown
unfolding get_dtype ftype_dinode2dir
get_dtype-ftype_dinode2dir dt mode = elim (Bool-cases (bit_and mode tarfs_ifmt == tarfs_ifreg)) [
  | inl h ↦ rw (ftype_dinode2dir, h) refl
  | inr h ↦ elim (Bool-cases (bit_and mode tarfs_ifmt == tarfs_ifdir)) [
    | inl d ↦ rw (ftype_dinode2dir, h, d) refl
    | inr d ↦ elim (Bool-cases (bit_and mode tarfs_ifmt == tarfs_iflnk)) [
      | inl l ↦ rw (ftype_dinode2dir, h, d, l) refl
      | inr l ↦ rw (ftype_dinode2dir, h, d, l) refl
    ]
  ]
]
