-- ===== src/Alloc/Heads.antt =====
-- A new head for one free list leaves the others, and a longer file leaves all of them.

use tarfs.Base.{
  ℕ, zero, suc, ◌+◌, ◌≤◌, ◌<◌, ◌≡◌, ◌≢◌, sym, subst, true, false, inl, inr, List, [], ◌∷◌, arith,
  All, if◌then◌else◌, Bool-cases,
}
use tarfs.Meta.{Sblock}
use tarfs.Manager.{Block, Manager}
use tarfs.Manager.Io.{extended}
use tarfs.Alloc.{Flist, head, set_head, with_head}
use tarfs.Alloc.FreeList.{FreeList, FreeList-frame, range, store-below}
use tarfs.Alloc.Pool.{Pool, same, put_list, Rising, Apart, IsPool}

pub head-set_head :
    (l k : Flist) (v : ℕ) (sb : Sblock)
    → head k (set_head l v sb) ≡ (if same l k then v else head k sb)
head-set_head l k v sb = ground arith

head-tarfs_size :
    (k : Flist) (v : ℕ) (sb : Sblock) → head k (record sb { tarfs_size = v }) ≡ head k sb
head-tarfs_size k v sb = ground arith

pub same-eq : (l k : Flist) → same l k ≡ true → l ≡ k
same-eq l k h = ground arith

same_comm : (l k : Flist) → same l k ≡ same k l
same_comm l k = ground arith

Apart-flip : (a : ℕ) (bs cs : List ℕ) → All (Apart (a ∷ cs)) bs → Apart bs a × All (Apart cs) bs
Apart-flip a [] cs h = (tt, tt)
Apart-flip a (b ∷ bs) cs ((ne, more), rest) =
    let (first, others) = Apart-flip a bs cs rest in ((λ e. ne (sym e), first), (more, others))

Apart-nil : (bs : List ℕ) → All (Apart bs) []
Apart-nil bs = tt

All-Apart-flip : (bs cs : List ℕ) → All (Apart cs) bs → All (Apart bs) cs
All-Apart-flip bs [] h = tt
All-Apart-flip bs (c ∷ cs) h =
    let (first, others) = Apart-flip c bs cs h in (first, All-Apart-flip bs cs others)

pub Rising-weaken : (lo hi hi' : ℕ) (bs : List ℕ) → hi ≤ hi' → Rising lo hi bs → Rising lo hi' bs
Rising-weaken lo hi hi' [] h r = tt
Rising-weaken lo hi hi' (b ∷ bs) h (p, q, r) = (p, omega arith, Rising-weaken (b + 1) hi hi' bs h r)

pub Rising-lower : (lo lo' hi : ℕ) (bs : List ℕ) → lo' ≤ lo → Rising lo hi bs → Rising lo' hi bs
Rising-lower lo lo' hi [] h r = tt
Rising-lower lo lo' hi (b ∷ bs) h (p, q, r) = (omega arith, q, r)

pub Rising-All :
    (P : ℕ → Type 0) (lo hi : ℕ) (bs : List ℕ)
    → ((b : ℕ) → lo ≤ b → b < hi → P b)
    → Rising lo hi bs
    → All P bs
Rising-All P lo hi [] h r = tt
Rising-All P lo hi (b ∷ bs) h (p, q, r) =
    (h b p q, Rising-All P (b + 1) hi bs (λ c u v. h c (omega arith) v) r)

pub Apart-above : (lo hi a : ℕ) (bs : List ℕ) → Rising lo hi bs → hi ≤ a → Apart bs a
Apart-above lo hi a bs r h = Rising-All (λ b. b ≢ a) lo hi bs (λ b p q e. omega arith) r

pub Rising-range : (lo n : ℕ) → Rising lo (lo + n) (range lo n)
Rising-range lo zero = tt
Rising-range lo (suc n) = (
  omega arith,
  omega arith,
  subst (λ t. Rising (lo + 1) t (range (lo + 1) n)) (omega arith) (Rising-range (lo + 1) n),
)

module _ {m : Manager} {p : Pool} (pool : IsPool m p) where
  -- List `l` now starts at `q` and holds `bs`.
  pub with_head-IsPool :
      (l : Flist) (q : ℕ) (bs : List ℕ)
      → FreeList m.world.blocks q bs
      → Rising m.m_orgsize p.limit bs
      → ((k : Flist) → same l k ≡ false → All (Apart (p.lists k)) bs)
      → IsPool (with_head l q m) (record p { lists = put_list l bs p.lists })
  with_head-IsPool l q bs linked rising apart = record {
    sound = omega (arith, pool.sound);
    limit = pool.limit;
    linked = λ k.
        rw head-set_head
          (elim (Bool-cases (same l k)) [ inl e ↦ rw e linked | inr e ↦ rw e (pool.linked k) ]);
    rising =
        λ k. elim (Bool-cases (same l k)) [ inl e ↦ rw e rising | inr e ↦ rw e (pool.rising k) ];
    apart = λ j k ne. elim (Bool-cases (same l j)) [
      | inl e ↦ elim (Bool-cases (same l k)) [
        | inl e' ↦ cc (same-eq l j e, same-eq l k e', ne)
        | inr e' ↦ rw (e, e') (apart k e')
      ]
      | inr e ↦ elim (Bool-cases (same l k)) [
        | inl e' ↦ rw (e, e') (All-Apart-flip bs (p.lists j) (apart j e))
        | inr e' ↦ rw (e, e') (pool.apart j k ne)
      ]
    ];
  }

  -- More blocks behind the end of the file
  pub extended-IsPool :
      (n : ℕ) (xs : List Block)
      → m.m_size + n ≤ m.world.capacity
      → IsPool (extended m n xs) (record p { limit = p.limit + n })
  extended-IsPool n xs room = record {
    sound = omega (arith, pool.sound);
    limit = omega (arith, pool.limit);
    linked = λ k. rw head-tarfs_size (
        FreeList-frame (pool.linked k) (
          Rising-All _ m.m_orgsize p.limit (p.lists k)
            (λ b lo hi. store-below m.world.blocks m.m_size xs b (omega (arith, pool.limit)))
            (pool.rising k)));
    rising = λ k.
        Rising-weaken m.m_orgsize p.limit (p.limit + n) (p.lists k) (omega arith) (pool.rising k);
    apart = pool.apart;
  }
