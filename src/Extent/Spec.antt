-- ===== src/Extent/Spec.antt =====
-- The map that the extents of an inode stand for, from blocks of the file to blocks of the device,
-- and what the insertion of an extent means for it. The arithmetic is exact here.
use tarfs.Base.{
  ℕ, ◌+◌, ◌-◌, ◌≤◌, ◌≡◌, refl, Option, none, some, List, [], ◌∷◌, arith, All, ltb, leb, ◌==◌, ◌&&◌,
  if◌then◌else◌,
}
use tarfs.Meta.{Dext}

-- The block at `off`: the first extent that holds it counts.
unfoldable pub lookup : List Dext → ℕ → Option ℕ
lookup [] off = none
lookup (e ∷ es) off =
    if leb e.de_off off && ltb off (e.de_off + e.de_nblks)
    then some (e.de_blkno + (off - e.de_off))
    else lookup es off

-- The first extent that ends where `dep` begins takes it in; else `dep` is a new last extent.
unfoldable pub insert : Dext → List Dext → List Dext
insert dep [] = dep ∷ []
insert dep (e ∷ es) =
    let rest = e ∷ insert dep es in
    if e.de_blkno + e.de_nblks == dep.de_blkno
    then record e { de_nblks = e.de_nblks + dep.de_nblks } ∷ es
    else rest

-- An extent that ends, on the device, where `dep` begins ends there in the file too.
abbrev pub Aligned : Dext → Dext → Type 0
Aligned dep e = e.de_blkno + e.de_nblks ≡ dep.de_blkno → e.de_off + e.de_nblks ≡ dep.de_off

-- `dep` begins behind all extents, in the file.
abbrev pub Behind : Dext → Dext → Type 0
Behind dep e = e.de_off + e.de_nblks ≤ dep.de_off

-- After the insertion the blocks of `dep` are found in it, and all others where they were.
pub lookup-insert :
    (dep : Dext) (es : List Dext) (off : ℕ)
    → All (Aligned dep) es
    → All (Behind dep) es
    → lookup (insert dep es) off ≡ (
        if leb dep.de_off off && ltb off (dep.de_off + dep.de_nblks)
        then some (dep.de_blkno + (off - dep.de_off))
        else lookup es off)
unfolding lookup insert
lookup-insert dep [] off a b = refl
lookup-insert dep (e ∷ es) off (a, as') (b, bs) = ground (arith, lookup-insert dep es off as' bs)
