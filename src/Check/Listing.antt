-- ===== src/Check/Listing.antt =====
-- `tarfs_lookup` finds what `tarfs_readdir` prints.
use tarfs.Base.{
  ℕ, zero, suc, ◌≡◌, ap, sym, ◌∙◌, inl, inr, Bool-cases, Option, none, some, List, [], ◌∷◌, ltb,
  add64,
}
use tarfs.Meta.{Direct, Dinode}
use tarfs.Manager.{Manager, Run, ok, fail, exited, fault, out_of_fuel, M, and_then}
use tarfs.Directory.{
  Cursor, Slot, LookupOp, Looked, found, absent, matches, load_entry, note_slot, lookup_step,
  lookup_loop, tarfs_lookup,
}
use tarfs.Directory.Search.{first_named}
use tarfs.Directory.Names.{matches-has_cname}
use tarfs.Check.{print_step, readdir_loop, tarfs_readdir}

-- The search returns, with this inode number or, for `none`, with ENOENT.
pub data Finds : Option ℕ → Run Looked → Type 0 where
  finds : {ino : ℕ} {m : Manager} → Finds (some ino) (ok (found ino) m)
  misses : {slot : Option Slot} {m : Manager} → Finds none (ok (absent slot) m)

Finds-after :
    {A : Type 0} (op : LookupOp) (r : Run A) (f : A → M (List Direct)) (g : A → M Looked)
    (es : List Direct) (m' : Manager)
    → and_then r f ≡ ok es m'
    → ((a : A) (m : Manager) → f a m ≡ ok es m' → Finds (first_named op es) (g a m))
    → Finds (first_named op es) (and_then r g)
Finds-after op (ok a m) f g es m' e next = next a m e
Finds-after op (fail x m) f g es m' e next = absurd cc
Finds-after op (exited m) f g es m' e next = absurd cc
Finds-after op fault f g es m' e next = absurd cc
Finds-after op out_of_fuel f g es m' e next = absurd cc

-- the entries that a call prints behind `dp`
data Printed (dp : Direct) (es : List Direct) (m' : Manager) (r : Run (List Direct)) : Type 0 where
  printed : (rest : List Direct) → es ≡ dp ∷ rest → r ≡ ok rest m' → Printed dp es m' r

Printed-lem :
    (dp : Direct) (es : List Direct) (m' : Manager) (r : Run (List Direct))
    → and_then r (λ rest. ok (dp ∷ rest)) ≡ ok es m'
    → Printed dp es m' r
Printed-lem dp es m' (ok rest m) e =
    let all : es ≡ dp ∷ rest = cc in
    let end : m ≡ m' = cc in printed rest all (ap (λ t. ok rest t) end)
Printed-lem dp es m' (fail x m) e = absurd cc
Printed-lem dp es m' (exited m) e = absurd cc
Printed-lem dp es m' fault e = absurd cc
Printed-lem dp es m' out_of_fuel e = absurd cc

abbrev Rest :
    LookupOp → (ℕ → Cursor → M (List Direct)) → (ℕ → Cursor → Option Slot → M Looked) → Type 0
Rest op f g =
    (off : ℕ) (c : Cursor) (slot : Option Slot) (m : Manager) (es : List Direct) (m' : Manager)
    → f off c m ≡ ok es m'
    → Finds (first_named op es) (g off c slot m)

step-Finds :
    (op : LookupOp) (off : ℕ) (c : Cursor) (slot : Option Slot) (f : ℕ → Cursor → M (List Direct))
    (g : ℕ → Cursor → Option Slot → M Looked)
    → Rest op f g
    → (l : List Direct) (m : Manager) (es : List Direct) (m' : Manager)
    → print_step off (record c { dp = l }) f m ≡ ok es m'
    → Finds (first_named op es) (lookup_step op off (record c { dp = l }) slot g m)
unfolding print_step lookup_step first_named
step-Finds op off c slot f g ih [] m es m' e = absurd cc
step-Finds op off c slot f g ih (dp ∷ next) m es m' e =
    elim (Printed-lem dp es m' (f (add64 off dp.d_reclen) (record c { dp = next }) m) e) [
      | printed rest all end ↦ elim (Bool-cases (matches op dp)) [
        | inl h ↦
            let named = sym (matches-has_cname op dp) ∙ h in rw (all, first_named, h, named) finds
        | inr h ↦
            let other = sym (matches-has_cname op dp) ∙ h in
            rw (all, first_named, h, other)
              (ih (add64 off dp.d_reclen) (record c { dp = next })
                (note_slot op off c.dirblkno c.dirbuf dp slot) m rest m' end)
      ]
    ]

no_fuel : (es : List Direct) (m' : Manager) → out_of_fuel ≡ ok es m' → ⊥
no_fuel es m' e = cc

nothing :
    (op : LookupOp) (es : List Direct) (slot : Option Slot) (m m' : Manager)
    → ok [] m ≡ ok es m'
    → Finds (first_named op es) (ok (absent slot) m)
unfolding first_named
nothing op [] slot m m' e = misses
nothing op (dp ∷ es) slot m m' e = absurd cc

loop-Finds :
    (k : ℕ) (op : LookupOp) (parentp : Dinode)
    → Rest op (readdir_loop k parentp) (lookup_loop k op parentp)
unfolding readdir_loop lookup_loop first_named
loop-Finds zero op parentp off c slot m es m' e = elim (Bool-cases (ltb off parentp.di_size)) [
  | inl h ↦ absurd (no_fuel es m' (rw h at e))
  | inr h ↦ rw h (nothing op es slot m m' (rw h at e))
]
loop-Finds (suc k) op parentp off c slot m es m' e = elim (Bool-cases (ltb off parentp.di_size)) [
  | inl h ↦ rw h (
      Finds-after op (load_entry parentp off c m) (λ c'. print_step off c' (readdir_loop k parentp))
        (λ c'. lookup_step op off c' slot (lookup_loop k op parentp)) es m' (rw h at e)
        λ c' m1 e'.
          step-Finds op off c' slot (readdir_loop k parentp) (lookup_loop k op parentp)
            (loop-Finds k op parentp) c'.dp m1 es m' e')
  | inr h ↦ rw h (nothing op es slot m m' (rw h at e))
]

-- If `tarfs_readdir` of checkTarfs prints the entries `es` of a directory, then `tarfs_lookup` of mkfs
-- returns for each name that it is given: with the inode number of the first of these entries that has
-- the name, and else with ENOENT. An entry has the name if it is in use, its `d_namelen` is the name's length,
-- and its bytes, up to a zero, are those of the name.
pub tarfs_readdir-Finds :
    (parentp : Dinode) (op : LookupOp) (m : Manager) (es : List Direct) (m' : Manager)
    → tarfs_readdir parentp m ≡ ok es m'
    → Finds (first_named op es) (tarfs_lookup parentp op m)
unfolding tarfs_readdir tarfs_lookup
tarfs_readdir-Finds parentp op m es m' e =
    loop-Finds parentp.di_size op parentp 0 (record { dirblkno = 0; dirbuf = []; dp = [] }) none m
      es m' e
