-- ===== src/Extent/Chain.antt =====
-- The extents of an inode as a list: those in the inode, then those of its indirect blocks.
use tarfs.Base.{ℕ, ◌+◌, ◌^◌, ◌≤◌, ◌<◌, ◌≡◌, ◌≢◌, List, [], ◌∷◌, ◌++◌, All, length, take}
use tarfs.Meta.{Dext, IndExt, Dinode, max_dinode_direct, max_indext, tarblk_none}
use tarfs.Manager.{Block, ind_ext, Manager}

-- An indirect block with its number.
abbrev pub Link : Type 0
Link = ℕ × IndExt

-- The extents that an indirect block has in use.
abbrev pub used : IndExt → List Dext
used x = take x.ie_num x.ie_dext

abbrev pub links_extents : List Link → List Dext
links_extents [] = []
links_extents ((p, x) ∷ ys) = used x ++ links_extents ys

abbrev pub Whole : IndExt → Type 0
Whole x = (length x.ie_dext ≡ max_indext) × (x.ie_num ≤ max_indext)

-- From block `p` the links lead through the indirect blocks `ys`.
pub data Chain (f : ℕ → Block) : ℕ → List Link → Type 0 where
  last :
      {p : ℕ} {x : IndExt}
      → f p ≡ ind_ext x
      → Whole x
      → x.ie_next ≡ tarblk_none
      → Chain f p ((p, x) ∷ [])
  more :
      {p : ℕ} {x : IndExt} {ys : List Link}
      → f p ≡ ind_ext x
      → Whole x
      → x.ie_next ≢ tarblk_none
      → Chain f x.ie_next ys
      → Chain f p ((p, x) ∷ ys)

-- The numbers that the code adds do not wrap.
abbrev pub Fits : Dext → Type 0
Fits e = (e.de_off + e.de_nblks < 2 ^ 63) × (e.de_blkno + e.de_nblks < 2 ^ 63)

-- The inode `ip` lists the extents `es`, with the indirect blocks `ys`: `di_nExtents` counts the
-- extents in the inode and the indirect blocks.
pub data Listed (f : ℕ → Block) (ip : Dinode) : List Link → List Dext → Type 0 where
  direct :
      {es : List Dext}
      → ip.di_nextents ≤ max_dinode_direct
      → es ≡ take ip.di_nextents ip.di_direct_extent
      → Listed f ip [] es
  indirect :
      {ys : List Link} {es : List Dext}
      → max_dinode_direct < ip.di_nextents
      → ip.di_nextents ≡ max_dinode_direct + length ys
      → Chain f ip.di_root_ind_ext ys
      → es ≡ ip.di_direct_extent ++ links_extents ys
      → Listed f ip ys es

-- The indirect blocks stand in the file, behind the archive.
abbrev pub Inside : Manager → Link → Type 0
Inside m (p, x) = (m.m_orgsize ≤ p) × (p < m.m_size)

-- Block `b` is none of these.
abbrev pub Other : ℕ → Link → Type 0
Other b (p, x) = p ≢ b

abbrev pub Unique : List Link → Type 0
Unique [] = Unit {0}
Unique ((p, x) ∷ ys) = All (Other p) ys × Unique ys

-- The inode `ip` holds the extents `es`, with the indirect blocks `ys` of the file at `m`.
pub record Holds (m : Manager) (ip : Dinode) (ys : List Link) (es : List Dext) : Type 0 where
  pub array : length ip.di_direct_extent ≡ max_dinode_direct
  pub fits : All Fits es
  pub inside : All (Inside m) ys
  pub unique : Unique ys
  pub listed : Listed m.world.blocks ip ys es
