-- ===== src/Extent/Read.antt =====
-- `getDataBlock` computes the map of the inode's extents.
use tarfs.Base.{
  ℕ, zero, suc, ◌+◌, ◌≤◌, ◌≡◌, ◌≢◌, refl, ap, ◌∙◌, true, false, inl, inr, Option, none, some, List,
  [], ◌∷◌, ◌++◌, arith, All, All-split, ltb, leb, ◌&&◌, Bool-cases, length, take, ne→==, add64,
  take-all,
}
use tarfs.Meta.{Dext, IndExt, Dinode, max_dinode_direct, tarblk_none}
use tarfs.Manager.{Manager, Run, ok, fail, einval, as_ind_ext, M}
use tarfs.Manager.Io.{IsSound, read_data-within}
use mathlib.Core.List.{append-nil}
use tarfs.Extent.{
  Search, hit, missed, indirect_step, find_extent, block_at, get_indirect, get_data_block,
  direct_num,
}
use tarfs.Extent.Spec.{lookup}
use tarfs.Extent.Chain.{
  Link, used, links_extents, Chain, last, more, Fits, Listed, direct, indirect, Inside, Holds,
}

pub lookup-append :
    (es fs : List Dext) (off : ℕ)
    → lookup (es ++ fs) off ≡ elim (lookup es off) [ none ↦ lookup fs off | some b ↦ some b ]
unfolding lookup
lookup-append [] fs off = refl
lookup-append (e ∷ es) fs off = ground (arith, lookup-append es fs off)

-- The loop over an array finds what the map has.
pub data Finds (off : ℕ) (s : Search) (b : Option ℕ) : Type 0 where
  found : (e : Dext) → s ≡ hit e → b ≡ some (block_at e off) → Finds off s b
  not_found : s ≡ missed → b ≡ none → Finds off s b

pub find_extent-Finds :
    (n : ℕ) (es : List Dext) (off : ℕ)
    → n ≤ length es
    → All Fits (take n es)
    → Finds off (find_extent n es off) (lookup (take n es) off)
unfolding find_extent lookup
find_extent-Finds zero es off h fits = not_found refl refl
find_extent-Finds (suc n) [] off h fits = absurd (omega arith)
find_extent-Finds (suc n) (e ∷ es) off h (fit, fits) =
    let exact : add64 e.de_off e.de_nblks ≡ e.de_off + e.de_nblks = omega arith in
    rw exact (elim (Bool-cases (leb e.de_off off && ltb off (e.de_off + e.de_nblks))) [
      | inl in_e ↦ rw in_e (found e refl (ap some (ground arith)))
      | inr out ↦ rw out (find_extent-Finds n es off (omega arith) fits)
    ])

-- What `getDataBlock` returns, by the map.
abbrev pub answer : Option ℕ → Manager → Run ℕ
answer none m = fail einval m
answer (some b) m = ok b m

abbrev or_else : Option ℕ → Manager → Run ℕ → Run ℕ
or_else none m rest = rest
or_else (some b) m rest = ok b m

module _ (x : IndExt) (off : ℕ) (rest : M ℕ) (m : Manager) where
  indirect_step-last :
      {b : Option ℕ}
      → Finds off (find_extent x.ie_num x.ie_dext off) b
      → x.ie_next ≡ tarblk_none
      → indirect_step x off rest m ≡ answer b m
  unfolding indirect_step
  indirect_step-last (found e s b) h = rw (indirect_step, s, b)
  indirect_step-last (not_found s b) h = rw (indirect_step, s, b, h)

  indirect_step-more :
      {b : Option ℕ}
      → Finds off (find_extent x.ie_num x.ie_dext off) b
      → x.ie_next ≢ tarblk_none
      → indirect_step x off rest m ≡ or_else b m (rest m)
  unfolding indirect_step
  indirect_step-more (found e s b) h = rw (indirect_step, s, b)
  indirect_step-more (not_found s b) h = rw (indirect_step, s, b, ne→== x.ie_next tarblk_none h)

answer-append :
    (es fs : List Dext) (off : ℕ) (m : Manager)
    → or_else (lookup es off) m (answer (lookup fs off) m) ≡ answer (lookup (es ++ fs) off) m
answer-append es fs off m = rw lookup-append (ground arith)

pub direct_num-few :
    (ip : Dinode) → ip.di_nextents ≤ max_dinode_direct → direct_num ip ≡ ip.di_nextents
unfolding direct_num
direct_num-few ip h = ground arith

pub direct_num-many :
    (ip : Dinode) → max_dinode_direct ≤ ip.di_nextents → direct_num ip ≡ max_dinode_direct
unfolding direct_num
direct_num-many ip h = ground arith

module _ {m : Manager} (sound : IsSound m) where
  get_indirect-lookup :
      (k off : ℕ) {p : ℕ} {ys : List Link}
      → Chain m.world.blocks p ys
      → All (Inside m) ys
      → All Fits (links_extents ys)
      → length ys ≤ k
      → get_indirect k off p m ≡ answer (lookup (links_extents ys) off) m
  unfolding get_indirect as_ind_ext
  get_indirect-lookup zero off (last at num end) inside fits fuel = absurd (omega arith)
  get_indirect-lookup zero off (more at num ne chain) inside fits fuel = absurd (omega arith)
  get_indirect-lookup (suc k) off (last {p} {x} at num end) inside fits fuel =
      let (mine, others) = All-split Fits (used x) [] fits in
      rw (read_data-within sound p inside.0.1, at, append-nil)
        (indirect_step-last x off (get_indirect k off x.ie_next) m
          (find_extent-Finds x.ie_num x.ie_dext off (omega arith) mine) end)
  get_indirect-lookup (suc k) off (more {p} {x} {ys} at num ne chain) inside fits fuel =
      let (mine, others) = All-split Fits (used x) (links_extents ys) fits in
      rw (read_data-within sound p inside.0.1, at)
        (indirect_step-more x off (get_indirect k off x.ie_next) m
            (find_extent-Finds x.ie_num x.ie_dext off (omega arith) mine) ne
          ∙ rw (get_indirect-lookup k off chain inside.1 others (omega arith))
              (answer-append (used x) (links_extents ys) off m))

  -- the search in the inode, with what follows it
  direct-Listed :
      (ip : Dinode) (off : ℕ) {ys : List Link} {es : List Dext}
      → Listed m.world.blocks ip ys es
      → length ip.di_direct_extent ≡ max_dinode_direct
      → All Fits es
      → All (Inside m) ys
      → get_data_block ip off m ≡ answer (lookup es off) m
  unfolding get_data_block
  direct-Listed ip off (direct few e) array fits inside =
      let n : direct_num ip ≡ ip.di_nextents = direct_num-few ip few in
      let test : leb ip.di_nextents max_dinode_direct ≡ true = ground arith in
      rw (e, get_data_block, n)
        (elim (find_extent-Finds ip.di_nextents ip.di_direct_extent off (omega arith)
          (rw e at fits)) [ found f s b ↦ rw (s, b) | not_found s b ↦ rw (s, b, test) ])
  direct-Listed ip off (indirect {ys} many count chain e) array fits inside =
      let n : direct_num ip ≡ max_dinode_direct = direct_num-many ip (omega arith) in
      let test : leb ip.di_nextents max_dinode_direct ≡ false = ground arith in
      let (mine, others) = All-split Fits ip.di_direct_extent (links_extents ys) (rw e at fits) in
      let whole = take-all ip.di_direct_extent max_dinode_direct array in
      rw (e, get_data_block, n, ← answer-append ip.di_direct_extent (links_extents ys) off m)
        (elim (find_extent-Finds max_dinode_direct ip.di_direct_extent off (omega arith)
          (rw whole mine)) [
            | found f s b ↦ rw (s, rw whole at b)
            | not_found s b ↦
                rw (s, rw whole at b, test)
                  (get_indirect-lookup ip.di_nextents off chain inside others (omega arith))
          ])

  -- On an inode that holds the extents `es`, `getDataBlock` returns the block that the extents map
  -- `off` to, and EINVAL if they map it to none; it changes nothing.
  pub get_data_block-lookup :
      (ip : Dinode) (off : ℕ) {ys : List Link} {es : List Dext}
      → Holds m ip ys es
      → get_data_block ip off m ≡ answer (lookup es off) m
  get_data_block-lookup ip off holds =
      direct-Listed ip off holds.listed holds.array holds.fits holds.inside
