-- ===== src/Extent/Merge.antt =====
-- The search of `insertDataExtent` for an extent that takes the new one in.
use tarfs.Base.{
  ℕ, zero, suc, ◌+◌, ◌≤◌, ◌≡◌, refl, ap, false, inl, inr, List, [], ◌∷◌, ◌++◌, arith, All, ◌==◌,
  Bool-cases, length, take, add64,
}
use tarfs.Meta.{Dext}
use tarfs.Extent.{Merged, merged, unmatched, behind, merge_extent}
use tarfs.Extent.Spec.{insert, Aligned}
use tarfs.Extent.Chain.{Fits}

-- Either the array is rewritten as the map is, or the map goes on behind the array.
pub data Merges (n : ℕ) (es : List Dext) (dep : Dext) (r : Merged) : Type 0 where
  takes_in :
      (es' : List Dext)
      → r ≡ merged es'
      → length es' ≡ length es
      → ((fs : List Dext) → insert dep (take n es ++ fs) ≡ take n es' ++ fs)
      → Merges n es dep r
  goes_on :
      r ≡ unmatched
      → ((fs : List Dext) → insert dep (take n es ++ fs) ≡ take n es ++ insert dep fs)
      → Merges n es dep r

Merges-behind :
    (n : ℕ) (e : Dext) (es : List Dext) (dep : Dext) {r : Merged}
    → (e.de_blkno + e.de_nblks == dep.de_blkno) ≡ false
    → Merges n es dep r
    → Merges (suc n) (e ∷ es) dep (behind e r)
unfolding insert
Merges-behind n e es dep out (takes_in es' r len law) =
    takes_in (e ∷ es') (rw r) (ap suc len) (λ fs. rw (out, law fs))
Merges-behind n e es dep out (goes_on r law) = goes_on (rw r) (λ fs. rw (out, law fs))

pub merge_extent-insert :
    (n : ℕ) (es : List Dext) (dep : Dext)
    → n ≤ length es
    → All Fits (take n es)
    → Fits dep
    → Merges n es dep (merge_extent n es dep)
unfolding merge_extent insert
merge_extent-insert zero es dep h fits fit = goes_on refl (λ fs. refl)
merge_extent-insert (suc n) [] dep h fits fit = absurd (omega arith)
merge_extent-insert (suc n) (e ∷ es) dep h (mine, fits) fit =
    let exact : add64 e.de_blkno e.de_nblks ≡ e.de_blkno + e.de_nblks = omega arith in
    let sum : add64 e.de_nblks dep.de_nblks ≡ e.de_nblks + dep.de_nblks = omega arith in
    rw (exact, sum)
      (elim (Bool-cases (e.de_blkno + e.de_nblks == dep.de_blkno)) [
        | inl at ↦ rw at (
            takes_in (record e { de_nblks = e.de_nblks + dep.de_nblks } ∷ es) refl refl
              (λ fs. rw at))
        | inr out ↦
            rw out
              (Merges-behind n e es dep out (merge_extent-insert n es dep (omega arith) fits fit))
      ])

-- The extents that an insertion leaves fit in 64 bits too.
pub insert-Fits :
    (dep : Dext) (es : List Dext)
    → All (Aligned dep) es
    → All Fits es
    → Fits dep
    → All Fits (insert dep es)
unfolding insert
insert-Fits dep [] a f d = (d, tt)
insert-Fits dep (e ∷ es) (a, as') (f, fs) d =
    elim (Bool-cases (e.de_blkno + e.de_nblks == dep.de_blkno)) [
      | inl at ↦ rw at ((omega (arith, a (ground arith)), ground arith), fs)
      | inr out ↦ rw out (f, insert-Fits dep es as' fs d)
    ]
