-- ===== src/Extent/Links.antt =====
-- Lists of indirect blocks in which one is rewritten, or a new one follows.
use mathlib.Core.List.{append_assoc, append-nil}
use tarfs.Base.{
  ℕ, suc, ◌<◌, ◌≡◌, refl, ap, ◌∙◌, sym, List, [], ◌∷◌, ◌++◌, All, All-split, All-append, length,
  ne→==,
}
use tarfs.Meta.{Dext, IndExt}
use tarfs.Manager.{Block, store}
use tarfs.Extent.Chain.{Link, used, links_extents, Other, Unique}
use tarfs.Extent.Walk.{Agree}

pub links_extents-append :
    (ys zs : List Link) → links_extents (ys ++ zs) ≡ links_extents ys ++ links_extents zs
links_extents-append [] zs = refl
links_extents-append ((p, x) ∷ ys) zs =
    ap (λ t. used x ++ t) (links_extents-append ys zs)
    ∙ sym (append_assoc (used x) (links_extents ys) (links_extents zs))

-- Behind the last block, which keeps its extents, stands a new one.
pub links_extents-snoc :
    (front : List Link) (q r : ℕ) (x x' z : IndExt)
    → used x' ≡ used x
    → links_extents ((front ++ (q, x') ∷ []) ++ (r, z) ∷ [])
      ≡ links_extents (front ++ (q, x) ∷ []) ++ used z
links_extents-snoc front q r x x' z e = simp (links_extents-append, append_assoc, append-nil, e)

-- The last block takes in more extents.
pub links_extents-last :
    (front : List Link) (q : ℕ) (x x' : IndExt) (es : List Dext)
    → used x' ≡ used x ++ es
    → links_extents (front ++ (q, x') ∷ []) ≡ links_extents (front ++ (q, x) ∷ []) ++ es
links_extents-last front q x x' es e = simp (links_extents-append, append_assoc, append-nil, e)

module _ (q : ℕ) (x x' : IndExt) (back : List Link) where
  pub All-replace :
      (P : Link → Type 0) (front : List Link)
      → (P (q, x) → P (q, x'))
      → All P (front ++ (q, x) ∷ back)
      → All P (front ++ (q, x') ∷ back)
  All-replace P [] same (h, hs) = (same h, hs)
  All-replace P (y ∷ front) same (h, hs) = (h, All-replace P front same hs)

  pub Unique-replace :
      (front : List Link) → Unique (front ++ (q, x) ∷ back) → Unique (front ++ (q, x') ∷ back)
  Unique-replace [] u = u
  Unique-replace ((p, z) ∷ front) (h, hs) =
      (All-replace (Other p) front (λ o. o) h, Unique-replace front hs)

  pub length-replace :
      (front : List Link) → length (front ++ (q, x') ∷ back) ≡ length (front ++ (q, x) ∷ back)
  length-replace [] = refl
  length-replace (y ∷ front) = ap suc (length-replace front)

pub Unique-others :
    (front : List Link) (q : ℕ) (x : IndExt) (back : List Link)
    → Unique (front ++ (q, x) ∷ back)
    → All (Other q) front × All (Other q) back
Unique-others [] q x back (h, hs) = (tt, h)
Unique-others ((p, z) ∷ front) q x back (h, hs) =
    let (mine, others) = Unique-others front q x back hs in
    let (_, here) = All-split (Other p) front ((q, x) ∷ back) h in
    ((λ e. here.0 (sym e), mine), others)

pub Unique-snoc :
    (ys : List Link) (r : ℕ) (z : IndExt)
    → Unique ys
    → All (Other r) ys
    → Unique (ys ++ (r, z) ∷ [])
Unique-snoc [] r z u o = (tt, tt)
Unique-snoc ((p, x) ∷ ys) r z (h, hs) (o, os) =
    (All-append (Other p) ys ((r, z) ∷ []) h (λ e. o (sym e), tt), Unique-snoc ys r z hs os)

pub Agree-store :
    (f : ℕ → Block) (q : ℕ) (b : Block) (ys : List Link)
    → All (Other q) ys
    → All (Agree f (store f q (b ∷ []))) ys
unfolding store
Agree-store f q b [] h = tt
Agree-store f q b ((p, x) ∷ ys) (h, hs) = (rw (ne→== p q h), Agree-store f q b ys hs)

pub Agree-trans :
    (f g h : ℕ → Block) (ys : List Link)
    → All (Agree f g) ys
    → All (Agree g h) ys
    → All (Agree f h) ys
Agree-trans f g h [] a b = tt
Agree-trans f g h (y ∷ ys) (a, as') (b, bs) = (b ∙ a, Agree-trans f g h ys as' bs)

pub All-mono :
    {P Q : Link → Type 0} (ys : List Link) → ((y : Link) → P y → Q y) → All P ys → All Q ys
All-mono [] f h = tt
All-mono (y ∷ ys) f (h, hs) = (f y h, All-mono ys f hs)

pub All-zip :
    {P Q R : Link → Type 0} (ys : List Link)
    → ((y : Link) → P y → Q y → R y)
    → All P ys
    → All Q ys
    → All R ys
All-zip [] f a b = tt
All-zip (y ∷ ys) f (a, as') (b, bs) = (f y a b, All-zip ys f as' bs)

-- The blocks of a list are kept by a call that spares what stands in the file.
pub Agree-kept :
    (f g : ℕ → Block) (limit : ℕ) (ys : List Link)
    → ((b : ℕ) → b < limit → g b ≡ f b)
    → All (λ y. y.0 < limit) ys
    → All (Agree f g) ys
Agree-kept f g limit [] kept h = tt
Agree-kept f g limit ((b, x) ∷ ys) kept (h, hs) = (kept b h, Agree-kept f g limit ys kept hs)
