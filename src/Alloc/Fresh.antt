-- ===== src/Alloc/Fresh.antt =====
-- No block is handed out twice.
use tarfs.Base.{
  ℕ, ◌+◌, ◌≤◌, ◌<◌, ◌≡◌, ◌≢◌, refl, subst, inl, inr, List, [], ◌∷◌, arith, All, Bool-cases, ne→==,
}
use tarfs.Manager.{Block, Manager, store}
use tarfs.Manager.Io.{rewritten}
use tarfs.Alloc.{Flist}
use tarfs.Alloc.FreeList.{FreeList-frame, All-range}
use tarfs.Alloc.Pool.{Pool, same, Rising, Apart, IsPool, taken, pool_take}
use tarfs.Alloc.Heads.{Apart-above, Rising-All}

-- `c` is in no list.
abbrev pub Unpooled : Pool → ℕ → Type 0
Unpooled p c = (k : Flist) → Apart (p.lists k) c

-- All that a client must know of the block that it got
pub record IsFresh (m : Manager) (b : ℕ) (p' : Pool) : Type 0 where
  pub behind : m.m_orgsize ≤ b
  pub below : b < p'.limit
  pub unpooled : Unpooled p' b

Apart-below : (lo hi a : ℕ) (bs : List ℕ) → Rising lo hi bs → a < lo → Apart bs a
Apart-below lo hi a bs r h = Rising-All (λ b. b ≢ a) lo hi bs (λ b p q e. omega arith) r

module _ {m : Manager} {p : Pool} (pool : IsPool m p) (l : Flist) where
  taken-IsFresh : (bs : List ℕ) → p.lists l ≡ bs → IsFresh m (taken l p bs).0 (taken l p bs).1
  unfolding taken
  taken-IsFresh (b ∷ bs) e =
      let (lo, hi, rising) = subst (Rising m.m_orgsize p.limit) e (pool.rising l) in
      record {
        behind = lo;
        below = hi;
        unpooled = λ k. elim (Bool-cases (same l k)) [
          | inl it ↦ rw it (Apart-below (b + 1) p.limit b bs rising (omega arith))
          | inr ne ↦ rw ne (subst (All (Apart (p.lists k))) e (pool.apart l k ne)).0
        ];
      }
  taken-IsFresh [] e = record {
    behind = omega (arith, pool.sound, pool.limit);
    below = omega arith;
    unpooled = λ k. elim (Bool-cases (same l k)) [
      | inl it ↦ rw it (All-range (λ b. b ≢ p.limit) (p.limit + 1) 127 λ b lo hi. omega arith)
      | inr ne ↦
          rw ne (Apart-above m.m_orgsize p.limit p.limit (p.lists k) (pool.rising k) (omega arith))
    ];
  }

  taken-spares :
      (c : ℕ) (bs : List ℕ)
      → p.lists l ≡ bs
      → c < p.limit
      → Unpooled p c
      → ((taken l p bs).0 ≢ c) × Unpooled (taken l p bs).1 c
  unfolding taken
  taken-spares c (b ∷ bs) e h un =
      let (ne, rest) = subst (λ cs. Apart cs c) e (un l) in
      (ne, λ k. elim (Bool-cases (same l k)) [ inl it ↦ rw it rest | inr other ↦ rw other (un k) ])
  taken-spares c [] e h un = (
    λ eq. omega arith,
    λ k. elim (Bool-cases (same l k)) [
      | inl it ↦ rw it (All-range (λ b. b ≢ c) (p.limit + 1) 127 λ b lo hi. omega arith)
      | inr other ↦ rw other (un k)
    ],
  )

  -- A block in use stays in use: it is not the one that is handed out, and no list gets it.
  pub pool_take-spares :
      (c : ℕ) → c < p.limit → Unpooled p c → ((pool_take l p).0 ≢ c) × Unpooled (pool_take l p).1 c
  unfolding pool_take
  pool_take-spares c = taken-spares c (p.lists l) refl

  pub pool_take-IsFresh : IsFresh m (pool_take l p).0 (pool_take l p).1
  unfolding pool_take
  pool_take-IsFresh = taken-IsFresh (p.lists l) refl

-- A write to a block that is in no list leaves the pool.
pub IsPool-rewritten :
    {m : Manager} {p : Pool} (q : ℕ) (x : Block)
    → IsPool m p
    → Unpooled p q
    → IsPool (rewritten m q (x ∷ [])) p
unfolding store
IsPool-rewritten {m} {p} q x pool un = record {
  sound = omega (arith, pool.sound);
  limit = pool.limit;
  linked = λ k. FreeList-frame (pool.linked k) (frame (p.lists k) (un k));
  rising = pool.rising;
  apart = pool.apart;
}
  where
    frame :
        (bs : List ℕ)
        → Apart bs q
        → All (λ b. store m.world.blocks q (x ∷ []) b ≡ m.world.blocks b) bs
    frame [] h = tt
    frame (b ∷ bs) (ne, rest) = (rw (ne→== b q ne), frame bs rest)
