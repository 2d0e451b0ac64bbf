-- ===== src/Extent/Archive.antt =====
-- `insertDataExtent` and `getDataBlock` write to no block of the archive.
use tarfs.Base.{ℕ, zero, suc, ◌+◌, ◌≤◌, Option, none, some, List, [], ◌∷◌, ltb, leb, ◌==◌, set}
use tarfs.Meta.{Dext, IndExt, Dinode, max_dinode_direct, max_indext, tarblk_none}
use tarfs.Manager.{ind_ext, Manager, M}
use tarfs.Manager.Archive.{
  Original, Inodes, Archived, Spares, on_ok, on_fail, on_fault, on_fuel, Done, Spares-bind,
  Spares-choice, write_data-Spares, read_data-Spares, as_ind_ext-Spares,
}
use tarfs.Alloc.{get_free_iexdata}
use tarfs.Alloc.Archive.{alloc_data-Spares}
use tarfs.Extent.{
  Search, hit, missed, find_extent, indirect_step, get_indirect, direct_num, get_data_block, Merged,
  merged, unmatched, merge_extent, walk_step, walk_indirect, new_ind_ext, add_first_indirect,
  add_next_indirect, extend_indirect, insert_data_extent,
}

-- The last indirect block, where there is one, is not in the archive.
abbrev pub Last : Original → Option (ℕ × IndExt) → Type 0
Last o none = Unit {0}
Last o (some (ind_off, x)) = o.file.size ≤ ind_off

Spares-search :
    {o : Original} {I : Inodes} {A : Type 0} {P : A → Type 0} (s : Search) (f : Dext → M A)
    (g k : M A) (m : Manager)
    → ((e : Dext) → Spares o I P (f e m))
    → Spares o I P (g m)
    → Spares o I P (k m)
    → Spares o I P ((elim s as (λ x. M A) [ hit e ↦ f e | Search.overrun ↦ g | missed ↦ k ]) m)
Spares-search (hit e) f g k m hf hg hk = hf e
Spares-search Search.overrun f g k m hf hg hk = hg
Spares-search missed f g k m hf hg hk = hk

Spares-merged :
    {o : Original} {I : Inodes} {A : Type 0} {P : A → Type 0} (s : Merged) (f : List Dext → M A)
    (g k : M A) (m : Manager)
    → ((es : List Dext) → Spares o I P (f es m))
    → Spares o I P (g m)
    → Spares o I P (k m)
    → Spares o I P
        ((elim s as (λ x. M A) [ merged es ↦ f es | Merged.overrun ↦ g | unmatched ↦ k ]) m)
Spares-merged (merged es) f g k m hf hg hk = hf es
Spares-merged Merged.overrun f g k m hf hg hk = hg
Spares-merged unmatched f g k m hf hg hk = hk

module _ (o : Original) (I : Inodes) where
  get_indirect-Spares :
      (k off p : ℕ) (m : Manager) → Archived o I m → Spares o I Done (get_indirect k off p m)
  unfolding get_indirect indirect_step
  get_indirect-Spares zero off p m h = on_fuel
  get_indirect-Spares (suc k) off p m h = Spares-bind (read_data-Spares o I m h p) λ buf m1 t h1.
      Spares-bind (as_ind_ext-Spares o I m1 h1 p buf t) λ x m2 behind h2.
        Spares-search (find_extent x.ie_num x.ie_dext off) _ _ _ m2 (λ e. on_ok tt h2) on_fault
          (Spares-choice (x.ie_next == tarblk_none) _ _ m2 (on_fail h2)
            (get_indirect-Spares k off x.ie_next m2 h2))

  pub get_data_block-Spares :
      (ip : Dinode) (off : ℕ) (m : Manager)
      → Archived o I m
      → Spares o I Done (get_data_block ip off m)
  unfolding get_data_block
  get_data_block-Spares ip off m h =
      Spares-search (find_extent (direct_num ip) ip.di_direct_extent off) _ _ _ m (λ e. on_ok tt h)
        on_fault
        (Spares-choice (leb ip.di_nextents max_dinode_direct) _ _ m (on_fail h)
          (get_indirect-Spares ip.di_nextents off ip.di_root_ind_ext m h))

  walk_indirect-Spares :
      (k : ℕ) (dep : Dext) (p : ℕ) (m : Manager)
      → Archived o I m
      → Spares o I (Last o) (walk_indirect k dep p m)
  unfolding walk_indirect walk_step
  walk_indirect-Spares zero dep p m h = on_fuel
  walk_indirect-Spares (suc k) dep p m h = Spares-bind (read_data-Spares o I m h p) λ buf m1 t h1.
      Spares-bind (as_ind_ext-Spares o I m1 h1 p buf t) λ x m2 behind h2.
        Spares-merged (merge_extent x.ie_num x.ie_dext dep) _ _ _ m2
          (λ es. Spares-choice (p == 0) _ _ m2 (on_ok tt h2) (
            Spares-bind
              (write_data-Spares o I m2 h2 (ind_ext (record x { ie_dext = es }) ∷ []) p behind)
              λ u m3 d h3. on_ok tt h3))
          on_fault
          (Spares-choice (x.ie_next == tarblk_none) _ _ m2 (on_ok behind h2)
            (walk_indirect-Spares k dep x.ie_next m2 h2))

  module _ (ip : Dinode) (dep : Dext) where
    add_first_indirect-Spares :
        (m : Manager) → Archived o I m → Spares o I Done (add_first_indirect ip dep m)
    unfolding add_first_indirect
    add_first_indirect-Spares m h =
        Spares-bind (alloc_data-Spares o I get_free_iexdata m h) λ (buf, b) m1 given h1.
          Spares-bind (write_data-Spares o I m1 h1 (ind_ext (new_ind_ext dep) ∷ []) b given)
            λ u m2 d h2. on_ok tt h2

    add_next_indirect-Spares :
        (q : ℕ) (x : IndExt) (m : Manager)
        → Archived o I m
        → o.file.size ≤ q
        → Spares o I Done (add_next_indirect ip q x dep m)
    unfolding add_next_indirect
    add_next_indirect-Spares q x m h behind =
        Spares-bind (alloc_data-Spares o I get_free_iexdata m h) λ (buf, b) m1 given h1.
          Spares-bind
            (write_data-Spares o I m1 h1 (ind_ext (record x { ie_next = b }) ∷ []) q behind)
            λ u m2 d h2.
              Spares-bind (write_data-Spares o I m2 h2 (ind_ext (new_ind_ext dep) ∷ []) b given)
                λ v m3 e h3. on_ok tt h3

    extend_indirect-Spares :
        (last : Option (ℕ × IndExt)) (m : Manager)
        → Archived o I m
        → Last o last
        → Spares o I Done (extend_indirect ip dep last m)
    unfolding extend_indirect
    extend_indirect-Spares none m h behind = on_ok tt h
    extend_indirect-Spares (some (q, x)) m h behind =
        Spares-choice (ltb x.ie_num max_indext) _ _ m
          (Spares-bind
            (write_data-Spares o I m h
              (ind_ext (record x { ie_dext = set x.ie_dext x.ie_num dep; ie_num = x.ie_num + 1 })
                ∷ [])
              q behind)
            λ u m1 d h1. on_ok tt h1)
          (add_next_indirect-Spares q x m h behind)

    pub insert_data_extent-Spares :
        (m : Manager) → Archived o I m → Spares o I Done (insert_data_extent ip dep m)
    unfolding insert_data_extent
    insert_data_extent-Spares m h =
        Spares-merged (merge_extent (direct_num ip) ip.di_direct_extent dep) _ _ _ m
          (λ es. on_ok tt h) on_fault
          (Spares-choice (ip.di_nextents == max_dinode_direct) _ _ m (add_first_indirect-Spares m h)
            (Spares-choice (ltb ip.di_nextents max_dinode_direct) _ _ m (on_ok tt h) (
              Spares-bind (walk_indirect-Spares ip.di_nextents dep ip.di_root_ind_ext m h)
                λ last m1 behind h1. extend_indirect-Spares last m1 h1 behind)))
