-- ===== src/Maker/Reads.antt =====
-- The calls of the C++ version that only read: they leave the whole state as it is.
use tarfs.Base.{
  ℕ, zero, suc, ◌+◌, ◌≡◌, refl, Bool, true, false, inl, inr, Bool-cases, Option, none, some, ltb,
  leb, ◌==◌, if◌then◌else◌,
}
use tarfs.Meta.{Dext, tarblk_none, max_dinode_direct}
use tarfs.Manager.{Block, dinode, ind_ext}
use tarfs.Extent.{Search, hit, missed, find_extent, direct_num}
use tarfs.Maker.{
  Inode, Maker, Run, ok, exited, fault, out_of_fuel, M, and_then, rollback, read_block, as_ind_ext,
  as_dinode,
}
use tarfs.Maker.Files.{load_inode}
use tarfs.Maker.Extents.{search_indirect, search_from, get_block, known_block}
use tarfs.Maker.Factory.{get_inode}

-- The state that the rollback of `s` leaves
abbrev pub rolled : Maker → Maker
rolled s = record s { world = record s.world { size = s.orgblks } }

-- The call returns in the same state, with a value for which `P` holds; or it exits by rollback.
pub data Reads (s : Maker) {A : Type 0} (P : A → Type 0) : Run A → Type 0 where
  on_ok : {a : A} → P a → Reads s P (ok a s)
  on_exit : Reads s P (exited (rolled s))
  on_fault : Reads s P fault
  on_fuel : Reads s P out_of_fuel

abbrev pub Any : {A : Type 0} → A → Type 0
Any a = Unit {0}

module _ {s : Maker} {A B : Type 0} {P : A → Type 0} {Q : B → Type 0} where
  pub Reads-bind :
      {r : Run A} (k : A → M B)
      → Reads s P r
      → ((a : A) → P a → Reads s Q (k a s))
      → Reads s Q (and_then r k)
  Reads-bind k (on_ok p) next = next _ p
  Reads-bind k on_exit next = on_exit
  Reads-bind k on_fault next = on_fault
  Reads-bind k on_fuel next = on_fuel

module _ (s : Maker) {A : Type 0} {P : A → Type 0} where
  pub Reads-choice :
      (b : Bool) (f g : M A)
      → Reads s P (f s)
      → Reads s P (g s)
      → Reads s P ((if b then f else g) s)
  Reads-choice true f g hf hg = hf
  Reads-choice false f g hf hg = hg

  pub Reads-search :
      (r : Search) (f : Dext → M A) (g : M A)
      → ((e : Dext) → Reads s P (f e s))
      → Reads s P (g s)
      → Reads s P
          ((elim r as (λ x. M A) [ hit e ↦ f e | Search.overrun ↦ λ s'. fault | missed ↦ g ]) s)
  Reads-search (hit e) f g hf hg = hf e
  Reads-search Search.overrun f g hf hg = on_fault
  Reads-search missed f g hf hg = hg

module _ (s : Maker) where
  pub read_block-Reads : (blkno : ℕ) → Reads s (λ b. b ≡ s.world.blocks blkno) (read_block blkno s)
  unfolding read_block rollback
  read_block-Reads blkno = elim (Bool-cases (ltb s.world.size (blkno + 1))) [
    | inl c ↦ rw (read_block, c) on_exit
    | inr c ↦ rw (read_block, c) (on_ok refl)
  ]

  as_ind_ext-Reads : (b : Block) → Reads s Any (as_ind_ext b s)
  unfolding as_ind_ext
  as_ind_ext-Reads (ind_ext x) = on_ok tt
  as_ind_ext-Reads _ = on_fault

  as_dinode-Reads : (b : Block) → Reads s Any (as_dinode b s)
  unfolding as_dinode
  as_dinode-Reads (dinode d) = on_ok tt
  as_dinode-Reads _ = on_fault

  search_from-Reads : (k off p : ℕ) → Reads s Any (search_from k off p s)
  unfolding search_from search_indirect
  search_from-Reads zero off p = on_fuel
  search_from-Reads (suc k) off p = Reads-bind _ (read_block-Reads p) λ buf e.
      Reads-bind _ (as_ind_ext-Reads buf) λ x d.
        Reads-search s (find_extent x.ie_num x.ie_dext off) _ _ (λ e. on_ok tt)
          (Reads-choice s (x.ie_next == tarblk_none) _ _ (on_ok tt)
            (search_from-Reads k off x.ie_next))

  pub get_block-Reads : (i : Inode) (off : ℕ) → Reads s Any (get_block i off s)
  unfolding get_block
  get_block-Reads i off =
      Reads-search s (find_extent (direct_num i.dinode) i.dinode.di_direct_extent off) _ _
        (λ e. on_ok tt)
        (Reads-choice s (leb i.dinode.di_nextents max_dinode_direct) _ _ (on_ok tt)
          (search_from-Reads i.dinode.di_nextents off i.dinode.di_root_ind_ext))

  pub known_block-Reads : (found : Option ℕ) → Reads s Any (known_block found s)
  unfolding known_block
  known_block-Reads none = on_fault
  known_block-Reads (some b) = on_ok tt

  pub load_inode-Reads : (ino pino blkno : ℕ) → Reads s Any (load_inode ino pino blkno s)
  unfolding load_inode
  load_inode-Reads ino pino blkno =
      Reads-bind _ (read_block-Reads blkno)
        λ buf e. Reads-bind _ (as_dinode-Reads buf) λ d u. on_ok tt

  pub get_inode-Reads : (ino pino : ℕ) → Reads s Any (get_inode ino pino s)
  unfolding get_inode
  get_inode-Reads ino pino =
      Reads-bind _ (get_block-Reads s.free_inode ino)
        λ found d. Reads-bind _ (known_block-Reads found) λ blkno e. load_inode-Reads ino pino blkno
