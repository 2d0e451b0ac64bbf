-- ===== src/Extent/Grow.antt =====
-- The ends of `insertDataExtent` that write to the device: a rewritten indirect block, and a new one.
use mathlib.Core.List.{append-nil, append_assoc}
use tarfs.Base.{
  ℕ, ◌+◌, ◌^◌, ◌≤◌, ◌<◌, ◌≡◌, ◌≢◌, refl, ap, ◌∙◌, sym, subst, List, [], ◌∷◌, ◌++◌, arith, All,
  All-split, All-append, length, take, take-all, length-append, ne→==, ==_refl, add64,
}
use tarfs.Meta.{Dext, IndExt, Dinode, max_dinode_direct, tarblk_none}
use tarfs.Manager.{Block, ind_ext, Manager, store}
use tarfs.Manager.Io.{write_data-within, rewritten}
use tarfs.Manager.Ensures.{Returns, returns, Returns-bind, Returns-mono}
use tarfs.Manager.Frame.{Frame, Any, Frame-refl, Frame-Any, Frame-write}
use tarfs.Alloc.{iexdata, flist_of, get_free_iexdata, alloc_data}
use tarfs.Alloc.Pool.{Pool, IsPool, pool_take}
use tarfs.Alloc.Refine.{HasRoom, alloc_data-pool_take}
use tarfs.Alloc.Fresh.{Unpooled, pool_take-IsFresh, pool_take-spares, IsPool-rewritten}
use tarfs.Extent.{new_ind_ext, add_first_indirect, add_next_indirect}
use tarfs.Extent.Chain.{
  Link, used, links_extents, Chain, last, more, Fits, Inside, Whole, Other, Unique, Listed, direct,
  indirect, Holds,
}
use tarfs.Extent.Links.{
  All-replace, Unique-replace, length-replace, Unique-others, Unique-snoc, Agree-store, Agree-trans,
  All-zip, All-mono, Agree-kept, links_extents-snoc,
}
use tarfs.Extent.Walk.{At, Agree}

-- The indirect blocks are in no free list.
abbrev pub Owned : Pool → Link → Type 0
Owned p (b, x) = Unpooled p b

-- The block is in use, by another than these indirect blocks.
abbrev pub Elsewhere : Pool → List Link → ℕ → Type 0
Elsewhere p ys b = Unpooled p b × All (Other b) ys

-- After the call the inode holds the extents `es`, in the old and at most one new indirect block, and
-- all blocks that are in use elsewhere are what they were.
pub record Inserted (m : Manager) (p : Pool) (ys : List Link) (es : List Dext) (ip : Dinode)
    (m' : Manager) : Type 0 where
  pub p' : Pool
  pub ys' : List Link
  pub pool : IsPool m' p'
  pub holds : Holds m' ip ys' es
  pub owned : All (Owned p') ys'
  pub frame : Frame (Elsewhere p ys) m m'

At-Other :
    (b : ℕ) {f : ℕ → Block} {r : ℕ} {ys : List Link} {q : ℕ} {x : IndExt}
    → At f r ys q x
    → All (Other b) ys
    → b ≢ q
At-Other b {q} {x} at others e =
    let (_, here) =
      All-split (Other b) at.front ((q, x) ∷ at.back) (subst (All (Other b)) at.split others) in
    here.0 (sym e)

-- The new block holds `dep` alone, and is the last one.
new_ind_ext_lem :
    (dep : Dext)
    → (used (new_ind_ext dep) ≡ dep ∷ [])
      × Whole (new_ind_ext dep)
      × ((new_ind_ext dep).ie_next ≡ tarblk_none)
unfolding new_ind_ext
new_ind_ext_lem dep = (refl, omega arith, refl)

first_extents :
    (ip : Dinode) (dep : Dext) (r : ℕ) {es : List Dext}
    → es ≡ ip.di_direct_extent
    → es ++ dep ∷ [] ≡ ip.di_direct_extent ++ links_extents ((r, new_ind_ext dep) ∷ [])
first_extents ip dep r e =
    ap (λ t. t ++ dep ∷ []) e
    ∙ ap (λ t. ip.di_direct_extent ++ t)
        (sym (append-nil (used (new_ind_ext dep)) ∙ (new_ind_ext_lem dep).0))

pub Listed-few :
    {f : ℕ → Block} {ip : Dinode} {ys : List Link} {es : List Dext}
    → Listed f ip ys es
    → ip.di_nextents ≤ max_dinode_direct
    → (ys ≡ []) × (es ≡ take ip.di_nextents ip.di_direct_extent)
Listed-few (direct few e) h = (refl, e)
Listed-few (indirect many count chain e) h = absurd (omega arith)

module _ {m : Manager} {p : Pool} (pool : IsPool m p) (behind_archive : 0 < m.m_orgsize) where
  -- An indirect block that is rewritten, the next one the same
  pub Inserted-rewritten :
      (ip : Dinode) {ys : List Link} {es es' : List Dext} {q : ℕ} {x : IndExt} (x' : IndExt)
      → Holds m ip ys es
      → All (Owned p) ys
      → (at : At m.world.blocks ip.di_root_ind_ext ys q x) → max_dinode_direct < ip.di_nextents
      → ip.di_nextents ≡ max_dinode_direct + length ys
      → x'.ie_next ≡ x.ie_next
      → Whole x'
      → All Fits es'
      → es' ≡ ip.di_direct_extent ++ links_extents (at.front ++ (q, x') ∷ at.back)
      → Inserted m p ys es' ip (rewritten m q (ind_ext x' ∷ []))
  unfolding store
  Inserted-rewritten ip {ys} {es} {es'} {q} {x} x' holds owned at many count next whole fits e =
      let unique = subst Unique at.split holds.unique in
      let (front, back) = Unique-others at.front q x at.back unique in
      let (_, here) =
        All-split (Owned p) at.front ((q, x) ∷ at.back) (subst (All (Owned p)) at.split owned) in
      let g = store m.world.blocks q (ind_ext x' ∷ []) in
      record {
        p' = p;
        ys' = at.front ++ (q, x') ∷ at.back;
        pool = IsPool-rewritten q (ind_ext x') pool here.0;
        holds = record {
          array = holds.array;
          fits = fits;
          inside =
              All-replace q x x' at.back (Inside m) at.front (λ h. h)
                (subst (All (Inside m)) at.split holds.inside);
          unique = Unique-replace q x x' at.back at.front unique;
          listed =
              indirect many
                (omega (arith, length-replace q x x' at.back at.front, ap length at.split))
                (at.before g ((q, x') ∷ at.back)
                  (Agree-store m.world.blocks q (ind_ext x') at.front front)
                  (at.from g x' (Agree-store m.world.blocks q (ind_ext x') at.back back)
                    (rw (store, ==_refl)) whole next))
                e;
        };
        owned =
            All-replace q x x' at.back (Owned p) at.front (λ h. h)
              (subst (All (Owned p)) at.split owned);
        frame = Frame-write q (ind_ext x') (Frame-refl m) λ b h s. At-Other b at s.1;
      }

  -- The facts about a block that `allocData` gave for an indirect block
  record Given (ys : List Link) (r : ℕ) (m' : Manager) : Type 0 where
    p' : Pool
    pool' : IsPool m' p'
    frame : Frame Any m m'
    archive : m.m_orgsize ≤ r
    below : r < m'.m_size
    unpooled : Unpooled p' r
    owned : All (Owned p') ys
    apart : All (Other r) ys
    spared : (b : ℕ) → b < m.m_size → Elsewhere p ys b → (r ≢ b) × Unpooled p' b

  alloc_data-Given :
      (ys : List Link)
      → HasRoom m
      → All (Inside m) ys
      → All (Owned p) ys
      → Returns (λ r m'. Given ys r.1 m') (alloc_data get_free_iexdata m)
  unfolding flist_of
  alloc_data-Given ys room inside owned =
      Returns-mono (alloc_data-pool_take {l = iexdata} get_free_iexdata pool room refl)
        λ r m' (e, pool', frame).
          let fresh = pool_take-IsFresh pool iexdata in
          let spares =
            λ (c : ℕ) (h : c < p.limit) (un : Unpooled p c). pool_take-spares pool iexdata c h un in
          record {
            p' = (pool_take iexdata p).1;
            pool' = pool';
            frame = frame;
            archive = omega (arith, fresh);
            below = omega (arith, fresh, pool'.limit);
            unpooled = subst (Unpooled (pool_take iexdata p).1) (sym e) fresh.unpooled;
            owned =
                All-zip {R = Owned (pool_take iexdata p).1} ys
                  (λ (b, x) i o. (spares b (omega (arith, pool.limit)) o).1) inside owned;
            apart =
                All-zip {R = Other r.1} ys
                  (λ (b, x) i o eq. (spares b (omega (arith, pool.limit)) o).0 (sym e ∙ sym eq))
                  inside owned;
            spared = λ b h s.
                let (ne, un) = spares b (omega (arith, pool.limit)) s.0 in
                (λ eq. ne (sym e ∙ eq), un);
          }

  pub add_first_indirect-Inserted :
      (ip : Dinode) (dep : Dext) {es : List Dext}
      → HasRoom m
      → Holds m ip [] es
      → ip.di_nextents ≡ max_dinode_direct
      → All Fits (es ++ dep ∷ [])
      → Returns (Inserted m p [] (es ++ dep ∷ [])) (add_first_indirect ip dep m)
  unfolding add_first_indirect store
  add_first_indirect-Inserted ip dep {es} room holds full fits =
      Returns-bind (alloc_data-Given [] room tt tt) λ (buf, r) m' given.
        rw
          (write_data-within given.pool'.sound (ind_ext (new_ind_ext dep) ∷ []) r
            (omega (arith, given.below)))
          (returns (record {
            p' = given.p';
            ys' = (r, new_ind_ext dep) ∷ [];
            pool = IsPool-rewritten r (ind_ext (new_ind_ext dep)) given.pool' given.unpooled;
            holds = record {
              array = holds.array;
              fits = fits;
              inside = (omega (arith, given.archive, given.below, given.frame.orgsize), tt);
              unique = (tt, tt);
              listed =
                  indirect (omega arith) (omega arith)
                    (last (rw (store, ==_refl)) (new_ind_ext_lem dep).1 (new_ind_ext_lem dep).2)
                    (first_extents ip dep r (
                      (Listed-few holds.listed (omega arith)).1
                      ∙ take-all ip.di_direct_extent ip.di_nextents (holds.array ∙ sym full)));
            };
            owned = (given.unpooled, tt);
            frame =
                Frame-write r (ind_ext (new_ind_ext dep)) (Frame-Any given.frame)
                  λ b h s e. (given.spared b h s).0 (sym e);
          }))

  -- A last indirect block that is linked to a new one
  module _ (ip : Dinode) (dep : Dext) {ys : List Link} {es : List Dext} {q : ℕ} {x : IndExt}
      (holds : Holds m ip ys es) (owned : All (Owned p) ys)
      (at : At m.world.blocks ip.di_root_ind_ext ys q x) (end : at.back ≡ []) {r : ℕ} {m' : Manager}
      (given : Given ys r m') where
    split : ys ≡ at.front ++ (q, x) ∷ []
    split = at.split ∙ ap (λ t. at.front ++ (q, x) ∷ t) end

    -- what is known of every block holds of the last one, and of all when it is rewritten
    at_q : (P : Link → Type 0) → All P ys → P (q, x)
    at_q P h = (All-split P at.front ((q, x) ∷ []) (subst (All P) split h)).1.0

    on_front : (P : Link → Type 0) → All P ys → All P at.front
    on_front P h = (All-split P at.front ((q, x) ∷ []) (subst (All P) split h)).0

    relinked : IndExt
    relinked = record x { ie_next = r }

    on_relinked :
        (P : Link → Type 0)
        → (P (q, x) → P (q, relinked))
        → All P ys
        → All P (at.front ++ (q, relinked) ∷ [])
    on_relinked P same h = All-replace q x relinked [] P at.front same (subst (All P) split h)

    linked_blocks : ℕ → Block
    linked_blocks =
        store (store m'.world.blocks q (ind_ext relinked ∷ [])) r (ind_ext (new_ind_ext dep) ∷ [])

    front-Agree : All (Agree m.world.blocks linked_blocks) at.front
    unfolding linked_blocks
    front-Agree =
        let f = m.world.blocks in
        let f₁ = m'.world.blocks in
        let f₂ = store f₁ q (ind_ext relinked ∷ []) in
        let first =
          Agree-kept f f₁ m.m_size at.front (λ b h. given.frame.kept b h tt)
            (on_front (λ y. y.0 < m.m_size) (All-mono ys (λ y i. i.1) holds.inside)) in
        let unique = subst Unique split holds.unique in
        let second =
          Agree-store f₁ q (ind_ext relinked) at.front (Unique-others at.front q x [] unique).0 in
        let third =
          Agree-store f₂ r (ind_ext (new_ind_ext dep)) at.front (on_front (Other r) given.apart) in
        Agree-trans f f₂ linked_blocks at.front (Agree-trans f f₁ f₂ at.front first second) third

    ne_qr : q ≢ r
    ne_qr = at_q (Other r) given.apart

    linked-Chain :
        Chain linked_blocks ip.di_root_ind_ext
          ((at.front ++ (q, relinked) ∷ []) ++ (r, new_ind_ext dep) ∷ [])
    unfolding linked_blocks relinked store
    linked-Chain = rw append_assoc (
        at.before linked_blocks ((q, relinked) ∷ (r, new_ind_ext dep) ∷ []) front-Agree (
          more (rw (ne→== q r ne_qr, ==_refl)) at.num
            (λ e. omega (arith, given.below, given.pool'.sound))
            (last (rw ==_refl) (new_ind_ext_lem dep).1 (new_ind_ext_lem dep).2)))

    linked-Inserted :
        es ≡ ip.di_direct_extent ++ links_extents ys
        → max_dinode_direct < ip.di_nextents
        → ip.di_nextents < 2 ^ 63
        → ip.di_nextents ≡ max_dinode_direct + length ys
        → All Fits (es ++ dep ∷ [])
        → Inserted m p ys
            (es ++ dep ∷ [])
            (record ip { di_nextents = add64 ip.di_nextents 1 })
            (rewritten (rewritten m' q (ind_ext relinked ∷ [])) r (ind_ext (new_ind_ext dep) ∷ []))
    unfolding linked_blocks relinked
    linked-Inserted e many few count fits = record {
      p' = given.p';
      ys' = (at.front ++ (q, relinked) ∷ []) ++ (r, new_ind_ext dep) ∷ [];
      pool =
          IsPool-rewritten r (ind_ext (new_ind_ext dep))
            (IsPool-rewritten q (ind_ext relinked) given.pool' (at_q (Owned given.p') given.owned))
            given.unpooled;
      holds = record {
        array = holds.array;
        fits = fits;
        inside =
            All-append _ (at.front ++ (q, relinked) ∷ []) _
              (on_relinked (Inside m') (λ h. h)
                (All-mono ys (λ y i. omega (arith, given.frame.orgsize, given.frame.grows))
                  holds.inside))
              (omega (arith, given.archive, given.below, given.frame.orgsize), tt);
        unique =
            Unique-snoc (at.front ++ (q, relinked) ∷ []) r (new_ind_ext dep)
              (Unique-replace q x relinked [] at.front (subst Unique split holds.unique))
              (on_relinked (Other r) (λ h. h) given.apart);
        listed =
            indirect (omega arith)
              (omega (
                arith,
                length-append (at.front ++ (q, relinked) ∷ []) ((r, new_ind_ext dep) ∷ []),
                length-replace q x relinked [] at.front,
                ap length split,
              ))
              linked-Chain
              (ap (λ t. t ++ dep ∷ []) e
                ∙ append_assoc ip.di_direct_extent (links_extents ys) (dep ∷ [])
                ∙ ap (λ t. ip.di_direct_extent ++ t)
                    (ap (λ t. links_extents t ++ dep ∷ []) split
                      ∙ ap (λ t. links_extents (at.front ++ (q, x) ∷ []) ++ t)
                          (sym (new_ind_ext_lem dep).0)
                      ∙ sym (links_extents-snoc at.front q r x relinked (new_ind_ext dep) refl)));
      };
      owned =
          All-append _ (at.front ++ (q, relinked) ∷ []) _
            (on_relinked (Owned given.p') (λ h. h) given.owned) (given.unpooled, tt);
      frame =
          Frame-write r (ind_ext (new_ind_ext dep))
            (Frame-write q (ind_ext relinked) (Frame-Any given.frame) (λ b h s. At-Other b at s.1))
            λ b h s e. (given.spared b h s).0 (sym e);
    }

  pub add_next_indirect-Inserted :
      (ip : Dinode) (dep : Dext) {ys : List Link} {es : List Dext} {q : ℕ} {x : IndExt}
      → HasRoom m
      → Holds m ip ys es
      → All (Owned p) ys
      → (at : At m.world.blocks ip.di_root_ind_ext ys q x) → at.back ≡ []
      → es ≡ ip.di_direct_extent ++ links_extents ys
      → max_dinode_direct < ip.di_nextents
      → ip.di_nextents < 2 ^ 63
      → ip.di_nextents ≡ max_dinode_direct + length ys
      → All Fits (es ++ dep ∷ [])
      → Returns (Inserted m p ys (es ++ dep ∷ [])) (add_next_indirect ip q x dep m)
  unfolding add_next_indirect relinked store
  add_next_indirect-Inserted ip dep {ys} {q} {x} room holds owned at end e many few count fits =
      Returns-bind (alloc_data-Given ys room holds.inside owned) λ (buf, r) m' given.
        let in_q = at_q ip dep holds owned at end given (Inside m) holds.inside in
        rw
          (
            write_data-within given.pool'.sound (ind_ext (record x { ie_next = r }) ∷ []) q
                (omega (arith, in_q, given.frame.grows)),
            write_data-within {m = rewritten m' q (ind_ext (record x { ie_next = r }) ∷ [])}
                (omega (arith, given.pool'.sound)) (ind_ext (new_ind_ext dep) ∷ []) r
                (omega (arith, given.below)),
          )
          (returns (linked-Inserted ip dep holds owned at end given e many few count fits))
