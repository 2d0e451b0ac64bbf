-- ===== src/Alloc/Refine.antt =====
-- `_allocData` and `allocData` against the pool of blocks.
use mathlib.Core.Path.{fun_ext}
use tarfs.Base.{
  ℕ, suc, ◌+◌, ◌-◌, ◌*◌, ◌≤◌, ◌≡◌, ◌≢◌, refl, subst, true, false, some, List, [], ◌∷◌, arith, All,
  ◌==◌, ne→==, add64, le→ltb, ltb,
}
use tarfs.Meta.{tarblk_none}
use tarfs.Manager.{Block, Manager, ok, as_free}
use tarfs.Manager.Io.{extended, write_data-extended, read_data-within}
use tarfs.Manager.Frame.{Any, Frame, Frame-trans}
use tarfs.Manager.Ensures.{Returns, returns, Returns-mono}
use tarfs.Alloc.{
  Flist, head, with_head, free_block, free_image, alloc_free_data, pop_free, take_free, flist_of,
  alloc_data, max_blocks,
}
use tarfs.Alloc.FreeList.{
  FreeList, stop, next, All-range, FreeList-free_image, length-free_image, range, store-below,
}
use tarfs.Alloc.Pool.{Pool, put_list, Rising, Apart, IsPool, taken, pool_take}
use tarfs.Alloc.Heads.{Apart-above, with_head-IsPool, extended-IsPool, Rising-range, Rising-lower}

FreeList-nil : {f : ℕ → Block} {p : ℕ} {bs : List ℕ} → FreeList f p bs → bs ≡ [] → p ≡ tarblk_none
FreeList-nil (stop e) h = e
FreeList-nil (next ne e rest) h = cc

FreeList-cons :
    {f : ℕ → Block} {p b : ℕ} {bs rest : List ℕ}
    → FreeList f p bs
    → bs ≡ b ∷ rest
    → (q : ℕ) × (p ≡ b) × (p ≢ tarblk_none) × (f p ≡ free_block q) × FreeList f q rest
FreeList-cons (stop e) h = cc
FreeList-cons {f} (next {q} ne e tail) h = (q, cc, ne, e, subst (FreeList f q) (cc) tail)

-- the room that one refill of a list can take
pub record HasRoom (m : Manager) : Type 0 where
  pub device : m.m_size + 128 ≤ m.world.capacity
  pub heap : 512 * 128 ≤ m.world.memory

-- The manager after `_allocData` wrote `n + 1` free blocks for list `l`.
abbrev pub refilled : Flist → ℕ → Manager → Manager
refilled l n m = with_head l m.m_size (extended m (suc n) (free_image (m.m_size + 1) n))

put_list_self : (l : Flist) (bs : List ℕ) (lists : Flist → List ℕ) → put_list l bs lists l ≡ bs
put_list_self l bs lists = ground arith

put_list-twice :
    (l : Flist) (bs cs : List ℕ) (lists : Flist → List ℕ)
    → put_list l bs (put_list l cs lists) ≡ put_list l bs lists
put_list-twice l bs cs lists = fun_ext λ k. ground arith

Frame-with_head : (l : Flist) (v : ℕ) (m : Manager) → Frame Any m (with_head l v m)
Frame-with_head l v m = record {
  kept = λ b h s. refl;
  grows = omega arith;
  orgsize = refl;
  free_same = refl;
  root_same = refl;
  maxino_same = ground arith;
  capacity_same = refl;
  memory_same = refl;
}

Frame-extended : (m : Manager) (n : ℕ) (xs : List Block) → Frame Any m (extended m n xs)
Frame-extended m n xs = record {
  kept = λ b h s. store-below m.world.blocks m.m_size xs b h;
  grows = omega arith;
  orgsize = refl;
  free_same = refl;
  root_same = refl;
  maxino_same = refl;
  capacity_same = refl;
  memory_same = refl;
}

module _ {m : Manager} {p : Pool} (pool : IsPool m p) (l : Flist) where
  alloc_free_data-refilled :
      (n : ℕ)
      → suc n ≤ max_blocks
      → m.m_size + suc n ≤ m.world.capacity
      → 512 * suc n ≤ m.world.memory
      → head l m.m_sb ≡ tarblk_none
      → alloc_free_data l (suc n) m ≡ ok tt (refilled l n m)
  unfolding alloc_free_data
  alloc_free_data-refilled n few device heap ended =
      let image = free_image (add64 m.m_size 1) (suc n - 1) in
      let e : add64 m.m_size 1 ≡ m.m_size + 1 = omega (arith, pool.sound) in
      let e' : suc n - 1 ≡ n = omega arith in
      let test : (head l m.m_sb == tarblk_none) ≡ true = rw ended in
      let few' : ltb max_blocks (suc n) ≡ false = le→ltb max_blocks (suc n) few in
      let heap' : ltb m.world.memory (512 * suc n) ≡ false =
        le→ltb m.world.memory (512 * suc n) heap in
      rw (
        test,
        few',
        heap',
        e,
        e',
        write_data-extended pool.sound (free_image (m.m_size + 1) n) (suc n)
            (omega (arith, length-free_image (m.m_size + 1) n)) (omega arith) device,
      )

  refilled-IsPool :
      (n : ℕ)
      → m.m_size + suc n ≤ m.world.capacity
      → IsPool
          (refilled l n m)
          (record { lists = put_list l (range p.limit (suc n)) p.lists; limit = p.limit + suc n })
  refilled-IsPool n device =
      with_head-IsPool (extended-IsPool pool (suc n) (free_image (m.m_size + 1) n) device) l
        m.m_size (range p.limit (suc n))
        (rw (← pool.limit) (
          FreeList-free_image m.world.blocks m.m_size (m.m_size + 1) n refl
            (omega (arith, pool.sound))))
        (Rising-lower p.limit m.m_orgsize (p.limit + suc n) (range p.limit (suc n))
          (omega (arith, pool.sound, pool.limit)) (Rising-range p.limit (suc n)))
        (λ k _.
          All-range (Apart (p.lists k)) p.limit (suc n)
            λ b lo hi. Apart-above m.m_orgsize p.limit b (p.lists k) (pool.rising k) lo)

  pop_free-head :
      {b : ℕ} {bs : List ℕ}
      → p.lists l ≡ b ∷ bs
      → Returns
          (λ r m'.
            (r.1 ≡ b) × IsPool m' (record p { lists = put_list l bs p.lists }) × Frame Any m m')
          (pop_free l m)
  unfolding pop_free as_free
  pop_free-head {b} {bs} e =
      let (q, at, _, linked, tail) = FreeList-cons (pool.linked l) e in
      let m_at = subst (λ t. m.world.blocks t ≡ free_block q) at linked in
      let (lo, hi, rising) = subst (Rising m.m_orgsize p.limit) e (pool.rising l) in
      rw (at, read_data-within pool.sound b (omega (arith, pool.limit)), m_at)
        (returns (
          refl,
          with_head-IsPool pool l q bs tail
              (Rising-lower (b + 1) m.m_orgsize p.limit bs (omega arith) rising)
              (λ k ne. (subst (All (Apart (p.lists k))) e (pool.apart l k ne)).1),
          Frame-with_head l q m,
        ))

-- What a request to list `l` leaves behind: the block is the pool's, and so is the rest.
abbrev pub Takes : Manager → ℕ × Pool → Block × ℕ → Manager → Type 0
Takes m (b, p') (buf, blkno) m' = (blkno ≡ b) × IsPool m' p' × Frame Any m m'

module _ {m : Manager} {p : Pool} (pool : IsPool m p) (room : HasRoom m) (l : Flist) where
  take_free-Takes :
      (bs : List ℕ) → p.lists l ≡ bs → Returns (Takes m (taken l p bs)) (take_free l m)
  unfolding take_free taken
  take_free-Takes [] e =
      let ended = FreeList-nil (pool.linked l) e in
      let fresh = refilled-IsPool pool l 127 (omega (arith, room)) in
      rw
        (
          ended,
          alloc_free_data-refilled pool l 127 (omega arith) (omega (arith, room))
              (omega (arith, room)) ended,
        )
        (Returns-mono (pop_free-head fresh l (put_list_self l (range p.limit 128) p.lists))
          λ r m' (b, pool', frame). (
            b,
            rw put_list-twice at pool',
            Frame-trans (Frame-extended m 128 (free_image (m.m_size + 1) 127)) (
                Frame-trans
                  (Frame-with_head l m.m_size (extended m 128 (free_image (m.m_size + 1) 127)))
                  frame),
          ))
  take_free-Takes (b ∷ bs) e =
      let (q, at, ne, linked, tail) = FreeList-cons (pool.linked l) e in
      rw (ne→== (head l m.m_sb) tarblk_none ne) (pop_free-head pool l e)

-- Let the manager's lists of free blocks be those of a pool (`IsPool`), and let the device have room for 128
-- blocks more and `malloc` 64 KiB to give. Then `allocData` returns, for each of its four lists, with the block
-- that the pool gives; the lists are those of the pool without it, and no other block has changed.
pub alloc_data-pool_take :
    {m : Manager} {p : Pool} {l : Flist} (flag : ℕ)
    → IsPool m p
    → HasRoom m
    → flist_of flag ≡ some l
    → Returns (Takes m (pool_take l p)) (alloc_data flag m)
unfolding alloc_data pool_take
alloc_data-pool_take {p} {l} flag pool room e =
    rw (alloc_data, e) (take_free-Takes pool room l (p.lists l) refl)
