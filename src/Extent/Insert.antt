-- ===== src/Extent/Insert.antt =====
-- `insertDataExtent` inserts into the map of the inode's extents.
use mathlib.Core.List.{append-nil, append_assoc}
use native.Mathlib.Numerals.{add-one}
use tarfs.Base.{
  ℕ, ◌+◌, ◌^◌, ◌≤◌, ◌<◌, ◌≡◌, refl, ap, ◌∙◌, sym, subst, inl, inr, Option, some, List, [], ◌∷◌,
  ◌++◌, arith, All, All-split, ltb, ◌==◌, Bool-cases, length, take, take-set, take-all, set,
  length-set, ne→==, le→ltb, lt→ltb, ltb→lt,
}
use tarfs.Meta.{Dext, IndExt, Dinode, max_dinode_direct, max_indext}
use tarfs.Manager.{ind_ext, Manager, Run, and_then}
use tarfs.Manager.Io.{write_data-within}
use tarfs.Manager.Ensures.{Returns, returns}
use tarfs.Manager.Frame.{Frame-refl}
use tarfs.Alloc.Pool.{Pool, IsPool}
use tarfs.Alloc.Refine.{HasRoom}
use tarfs.Extent.{extend_indirect, append_direct, insert_data_extent}
use tarfs.Extent.Spec.{insert, Aligned}
use tarfs.Extent.Chain.{
  Link, used, links_extents, Chain, Fits, Inside, Listed, direct, indirect, Holds,
}
use tarfs.Extent.Read.{direct_num-few, direct_num-many}
use tarfs.Extent.Merge.{takes_in, goes_on, merge_extent-insert, insert-Fits}
use tarfs.Extent.Links.{links_extents-last}
use tarfs.Extent.Walk.{At, WalkEnd, took_in, at_end, walk_indirect-WalkEnd}
use tarfs.Extent.Grow.{
  Inserted, Owned, Inserted-rewritten, add_first_indirect-Inserted, add_next_indirect-Inserted,
}

module _ {m : Manager} {p : Pool} (pool : IsPool m p) (behind_archive : 0 < m.m_orgsize)
    (room : HasRoom m) (ip : Dinode) (dep : Dext) where
  -- an insertion that touches only the inode
  Inserted-direct :
      {ys : List Link} {es es' : List Dext} (ip' : Dinode)
      → Holds m ip ys es
      → All (Owned p) ys
      → length ip'.di_direct_extent ≡ max_dinode_direct
      → All Fits es'
      → Listed m.world.blocks ip' ys es'
      → Inserted m p ys es' ip' m
  Inserted-direct {ys} ip' holds owned array fits listed = record {
    p' = p;
    ys' = ys;
    pool = pool;
    holds = record {
      array = array;
      fits = fits;
      inside = holds.inside;
      unique = holds.unique;
      listed = listed;
    };
    owned = owned;
    frame = Frame-refl m;
  }

  exact :
      {ys : List Link} {es es' : List Dext} {r : Run Dinode}
      → es ≡ es'
      → Returns (Inserted m p ys es) r
      → Returns (Inserted m p ys es') r
  exact {ys} {r} e h = subst (λ t. Returns (Inserted m p ys t) r) e h

  few-Inserted :
      {es : List Dext}
      → Holds m ip [] es
      → ip.di_nextents ≤ max_dinode_direct
      → es ≡ take ip.di_nextents ip.di_direct_extent
      → All Fits (insert dep es)
      → Fits dep
      → Returns (Inserted m p [] (insert dep es)) (insert_data_extent ip dep m)
  unfolding insert_data_extent insert append_direct
  few-Inserted {es} holds few e fits fit =
      let n = direct_num-few ip few in
      let law_at =
        λ (t : List Dext)
            (law : (fs : List Dext)
              → insert dep (take ip.di_nextents ip.di_direct_extent ++ fs) ≡ t ++ fs).
          ap (insert dep) e
          ∙ ap (insert dep) (sym (append-nil (take ip.di_nextents ip.di_direct_extent)))
          ∙ law []
          ∙ append-nil t in
      rw (insert_data_extent, n)
        (elim (merge_extent-insert ip.di_nextents ip.di_direct_extent dep
          (omega (arith, holds.array)) (subst (All Fits) e holds.fits) fit) [
            | takes_in es' r len law ↦ rw r (
                returns (
                  Inserted-direct (record ip { di_direct_extent = es' }) holds tt
                    (len ∙ holds.array) fits (direct few (law_at (take ip.di_nextents es') law))))
            | goes_on r law ↦
                let new : insert dep es ≡ es ++ dep ∷ [] =
                  ap (insert dep) e
                  ∙ ap (insert dep) (sym (append-nil (take ip.di_nextents ip.di_direct_extent)))
                  ∙ law []
                  ∙ ap (λ t. t ++ dep ∷ []) (sym e) in
                elim (Bool-cases (ip.di_nextents == max_dinode_direct)) [
                  | inl full ↦
                      rw (r, full)
                        (exact (sym new) (
                          add_first_indirect-Inserted pool behind_archive ip dep room holds
                            (ground arith) (subst (All Fits) new fits)))
                  | inr not_full ↦
                      let free : ip.di_nextents < max_dinode_direct = ground arith in
                      rw (r, not_full, lt→ltb ip.di_nextents max_dinode_direct free)
                        (returns (
                          Inserted-direct (append_direct ip dep) holds tt
                            (length-set ip.di_direct_extent ip.di_nextents dep ∙ holds.array) fits
                            (direct (omega arith) (
                              new
                              ∙ ap (λ t. t ++ dep ∷ []) e
                              ∙ sym (
                                  take-set ip.di_direct_extent ip.di_nextents dep
                                    (omega (arith, holds.array)))
                              ∙ ap (λ t. take t (set ip.di_direct_extent ip.di_nextents dep))
                                  (sym (add-one ip.di_nextents))))))
                ]
          ])

  -- what follows a walk that ended without a merge
  extend_indirect-Inserted :
      {ys : List Link} {es : List Dext} {q : ℕ} {x : IndExt}
      → Holds m ip ys es
      → All (Owned p) ys
      → (at : At m.world.blocks ip.di_root_ind_ext ys q x) → at.back ≡ []
      → es ≡ ip.di_direct_extent ++ links_extents ys
      → max_dinode_direct < ip.di_nextents
      → ip.di_nextents < 2 ^ 63
      → ip.di_nextents ≡ max_dinode_direct + length ys
      → All Fits (es ++ dep ∷ [])
      → Returns (Inserted m p ys (es ++ dep ∷ [])) (extend_indirect ip dep (some (q, x)) m)
  unfolding extend_indirect
  extend_indirect-Inserted {ys} {es} {q} {x} holds owned at end e many few count fits =
      elim (Bool-cases (ltb x.ie_num max_indext)) [
        | inl free ↦
            let x' = record x { ie_dext = set x.ie_dext x.ie_num dep; ie_num = x.ie_num + 1 } in
            let num : x.ie_num < max_indext = ltb→lt x.ie_num max_indext free in
            let more : used x' ≡ used x ++ dep ∷ [] =
              ap (λ t. take t (set x.ie_dext x.ie_num dep)) (add-one x.ie_num)
              ∙ take-set x.ie_dext x.ie_num dep (omega (arith, at.num)) in
            let in_q =
              (All-split (Inside m) at.front ((q, x) ∷ at.back)
                (subst (All (Inside m)) at.split holds.inside)).1.0 in
            rw (free, write_data-within pool.sound (ind_ext x' ∷ []) q (omega (arith, in_q)))
              (returns (
                Inserted-rewritten pool behind_archive ip x' holds owned at many count refl
                  (omega (arith, at.num, num, length-set x.ie_dext x.ie_num dep)) fits
                  (ap (λ t. t ++ dep ∷ []) e
                    ∙ append_assoc ip.di_direct_extent (links_extents ys) (dep ∷ [])
                    ∙ ap (λ t. ip.di_direct_extent ++ t)
                        (ap (λ t. links_extents t ++ dep ∷ [])
                            (at.split ∙ ap (λ t. at.front ++ (q, x) ∷ t) end)
                          ∙ sym (links_extents-last at.front q x x' (dep ∷ []) more)
                          ∙ ap (λ t. links_extents (at.front ++ (q, x') ∷ t)) (sym end)))))
        | inr full ↦ rw full (
            add_next_indirect-Inserted pool behind_archive ip dep room holds owned at end e many few
              count fits)
      ]

  walked-Inserted :
      {ys : List Link} {es : List Dext} {r : Run (Option Link)}
      → Holds m ip ys es
      → All (Owned p) ys
      → max_dinode_direct < ip.di_nextents
      → ip.di_nextents < 2 ^ 63
      → ip.di_nextents ≡ max_dinode_direct + length ys
      → es ≡ ip.di_direct_extent ++ links_extents ys
      → All Fits (insert dep es)
      → insert dep es ≡ ip.di_direct_extent ++ insert dep (links_extents ys)
      → WalkEnd m dep ip.di_root_ind_ext ys r
      → Returns (Inserted m p ys (insert dep es)) (and_then r (extend_indirect ip dep))
  unfolding extend_indirect
  walked-Inserted holds owned many few count e fits law (took_in {x} es' at len inner) = returns (
      Inserted-rewritten pool behind_archive ip (record x { ie_dext = es' }) holds owned at many
        count refl (omega (arith, at.num, len)) fits
        (law ∙ ap (λ t. ip.di_direct_extent ++ t) inner))
  walked-Inserted {ys} {es} holds owned many few count e fits law (at_end at end inner) =
      let new : insert dep es ≡ es ++ dep ∷ [] =
        law
        ∙ ap (λ t. ip.di_direct_extent ++ t) inner
        ∙ sym (append_assoc ip.di_direct_extent (links_extents ys) (dep ∷ []))
        ∙ ap (λ t. t ++ dep ∷ []) (sym e) in
      exact (sym new)
        (extend_indirect-Inserted holds owned at end e many few count (subst (All Fits) new fits))

  many-Inserted :
      {ys : List Link} {es : List Dext}
      → Holds m ip ys es
      → All (Owned p) ys
      → max_dinode_direct < ip.di_nextents
      → ip.di_nextents < 2 ^ 63
      → ip.di_nextents ≡ max_dinode_direct + length ys
      → Chain m.world.blocks ip.di_root_ind_ext ys
      → es ≡ ip.di_direct_extent ++ links_extents ys
      → All Fits (insert dep es)
      → Fits dep
      → Returns (Inserted m p ys (insert dep es)) (insert_data_extent ip dep m)
  unfolding insert_data_extent
  many-Inserted {ys} {es} holds owned many few count chain e fits fit =
      let n = direct_num-many ip (omega arith) in
      let arr = ip.di_direct_extent in
      let whole = take-all arr max_dinode_direct holds.array in
      let (mine, theirs) = All-split Fits arr (links_extents ys) (subst (All Fits) e holds.fits) in
      rw (insert_data_extent, n)
        (elim (merge_extent-insert max_dinode_direct arr dep (omega (arith, holds.array))
          (subst (All Fits) (sym whole) mine) fit) [
            | takes_in es' r len law ↦ rw r (
                returns (
                  Inserted-direct (record ip { di_direct_extent = es' }) holds owned
                    (len ∙ holds.array) fits
                    (indirect many count chain (
                      ap (insert dep) e
                      ∙ ap (λ t. insert dep (t ++ links_extents ys)) (sym whole)
                      ∙ law (links_extents ys)
                      ∙ ap (λ t. t ++ links_extents ys)
                          (take-all es' max_dinode_direct (len ∙ holds.array))))))
            | goes_on r law ↦
                let behind : insert dep es ≡ arr ++ insert dep (links_extents ys) =
                  ap (insert dep) e
                  ∙ ap (λ t. insert dep (t ++ links_extents ys)) (sym whole)
                  ∙ law (links_extents ys)
                  ∙ ap (λ t. t ++ insert dep (links_extents ys)) whole in
                rw
                  (
                    r,
                    ne→== ip.di_nextents max_dinode_direct (λ z. omega arith),
                    le→ltb ip.di_nextents max_dinode_direct (omega arith),
                  )
                  (walked-Inserted holds owned many few count e fits behind (
                    walk_indirect-WalkEnd pool.sound dep fit behind_archive ip.di_nextents chain
                      holds.inside theirs (omega arith)))
          ])

  Holds-Inserted :
      {ys : List Link} {es : List Dext}
      → Holds m ip ys es
      → Listed m.world.blocks ip ys es
      → All (Owned p) ys
      → ip.di_nextents < 2 ^ 63
      → All Fits (insert dep es)
      → Fits dep
      → Returns (Inserted m p ys (insert dep es)) (insert_data_extent ip dep m)
  Holds-Inserted holds (direct few e) owned small fits fit = few-Inserted holds few e fits fit
  Holds-Inserted holds (indirect many count chain e) owned small fits fit =
      many-Inserted holds owned many small count chain e fits fit

-- On an inode that holds the extents `es`, with room for one more chunk of free blocks,
-- `insertDataExtent` returns without an error, and the inode holds `insert dep es`: the first extent
-- that ends where `dep` begins takes it in, else it is the last one. The free lists are a pool as
-- before, and every block in use elsewhere, those of the archive among them, is what it was.
pub insert_data_extent-insert :
    {m : Manager} {p : Pool} {ys : List Link} {es : List Dext} (ip : Dinode) (dep : Dext)
    → IsPool m p
    → 0 < m.m_orgsize
    → HasRoom m
    → Holds m ip ys es
    → All (Owned p) ys
    → ip.di_nextents < 2 ^ 63
    → All (Aligned dep) es
    → Fits dep
    → Returns (Inserted m p ys (insert dep es)) (insert_data_extent ip dep m)
insert_data_extent-insert {es} ip dep pool archive room holds owned small aligned fit =
    Holds-Inserted pool archive room ip dep holds holds.listed owned small
      (insert-Fits dep es aligned holds.fits fit) fit
