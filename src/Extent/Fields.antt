-- ===== src/Extent/Fields.antt =====
-- `insertDataExtent` changes no field of the inode but those that hold extents.
use tarfs.Base.{
  ℕ, ◌≡◌, refl, inl, inr, Bool-cases, Option, none, some, List, [], ◌∷◌, ◌+◌, set, ltb, ◌==◌,
}
use tarfs.Meta.{Dext, IndExt, Dinode, max_dinode_direct, max_indext}
use tarfs.Manager.{Manager, ind_ext, write_data}
use tarfs.Alloc.{alloc_data, get_free_iexdata}
use tarfs.Manager.Ensures.{Ensures, on_ok, on_fault, Ensures-after}
use tarfs.Extent.{
  Merged, merged, unmatched, merge_extent, direct_num, walk_indirect, extend_indirect,
  add_next_indirect, add_first_indirect, insert_data_extent, append_direct, new_ind_ext,
}

-- But for its extents, `ip'` is `ip`.
abbrev pub Kept : Dinode → Dinode → Type 0
Kept ip ip' = ip' ≡ record ip {
  di_nextents = ip'.di_nextents;
  di_direct_extent = ip'.di_direct_extent;
  di_root_ind_ext = ip'.di_root_ind_ext;
}

abbrev Keeps : Dinode → Dinode → Manager → Type 0
Keeps ip ip' m' = Kept ip ip'

data MergedCases (r : Merged) : Type 0 where
  is_merged : (es : List Dext) → r ≡ merged es → MergedCases r
  is_overrun : r ≡ Merged.overrun → MergedCases r
  is_unmatched : r ≡ unmatched → MergedCases r

Merged-cases : (r : Merged) → MergedCases r
Merged-cases (merged es) = is_merged es refl
Merged-cases Merged.overrun = is_overrun refl
Merged-cases unmatched = is_unmatched refl

module _ (ip : Dinode) (dep : Dext) where
  add_first_indirect-Keeps :
      (m : Manager) → Ensures (Keeps ip) (λ m'. Unit {0}) (add_first_indirect ip dep m)
  unfolding add_first_indirect
  add_first_indirect-Keeps m = Ensures-after (alloc_data get_free_iexdata m) λ (buf, b) m1.
      Ensures-after (write_data (ind_ext (new_ind_ext dep) ∷ []) b m1) λ u m2. on_ok refl

  add_next_indirect-Keeps :
      (ind_off : ℕ) (x : IndExt) (m : Manager)
      → Ensures (Keeps ip) (λ m'. Unit {0}) (add_next_indirect ip ind_off x dep m)
  unfolding add_next_indirect
  add_next_indirect-Keeps ind_off x m = Ensures-after (alloc_data get_free_iexdata m) λ (buf, b) m1.
      Ensures-after (write_data (ind_ext (record x { ie_next = b }) ∷ []) ind_off m1)
        λ u m2. Ensures-after (write_data (ind_ext (new_ind_ext dep) ∷ []) b m2) λ v m3. on_ok refl

  extend_indirect-Keeps :
      (last : Option (ℕ × IndExt)) (m : Manager)
      → Ensures (Keeps ip) (λ m'. Unit {0}) (extend_indirect ip dep last m)
  unfolding extend_indirect
  extend_indirect-Keeps none m = on_ok refl
  extend_indirect-Keeps (some (ind_off, x)) m = elim (Bool-cases (ltb x.ie_num max_indext)) [
    | inl h ↦
        rw (extend_indirect, h)
          (Ensures-after
            (write_data
              (ind_ext (record x { ie_dext = set x.ie_dext x.ie_num dep; ie_num = x.ie_num + 1 })
                ∷ [])
              ind_off m)
            λ u m1. on_ok refl)
    | inr h ↦ rw (extend_indirect, h) (add_next_indirect-Keeps ind_off x m)
  ]

  insert_unmatched-Keeps :
      (m : Manager)
      → merge_extent (direct_num ip) ip.di_direct_extent dep ≡ unmatched
      → Ensures (Keeps ip) (λ m'. Unit {0}) (insert_data_extent ip dep m)
  unfolding insert_data_extent append_direct
  insert_unmatched-Keeps m e = elim (Bool-cases (ip.di_nextents == max_dinode_direct)) [
    | inl h ↦ rw (insert_data_extent, e, h) (add_first_indirect-Keeps m)
    | inr h ↦ elim (Bool-cases (ltb ip.di_nextents max_dinode_direct)) [
      | inl few ↦ rw (insert_data_extent, e, h, few) (on_ok refl)
      | inr many ↦
          rw (insert_data_extent, e, h, many)
            (Ensures-after (walk_indirect ip.di_nextents dep ip.di_root_ind_ext m)
              extend_indirect-Keeps)
    ]
  ]

  pub insert_data_extent-Keeps :
      (m : Manager) → Ensures (Keeps ip) (λ m'. Unit {0}) (insert_data_extent ip dep m)
  unfolding insert_data_extent
  insert_data_extent-Keeps m =
      elim (Merged-cases (merge_extent (direct_num ip) ip.di_direct_extent dep)) [
        | is_merged es e ↦ rw (insert_data_extent, e) (on_ok refl)
        | is_overrun e ↦ rw (insert_data_extent, e) on_fault
        | is_unmatched e ↦ insert_unmatched-Keeps m e
      ]
