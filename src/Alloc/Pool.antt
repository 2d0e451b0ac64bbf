-- ===== src/Alloc/Pool.antt =====
-- What the free lists promise: a pool of blocks, from which each request takes a block that no list
-- holds afterwards. An empty list is refilled with 128 blocks at the end of the file.
use tarfs.Base.{ℕ, ◌+◌, ◌≤◌, ◌<◌, ◌≡◌, ◌≢◌, Bool, true, false, List, [], ◌∷◌, All, if◌then◌else◌}
use tarfs.Manager.{Manager}
use tarfs.Manager.Io.{IsSound}
use tarfs.Alloc.{Flist, regdata, dirdata, iexdata, ind_dinode, dinode, head}
use tarfs.Alloc.FreeList.{FreeList, range}

-- the blocks of each list, and the end of the file
pub record Pool : Type 0 where
  pub lists : Flist → List ℕ
  pub limit : ℕ

abbrev pub same : Flist → Flist → Bool
same regdata regdata = true
same dirdata dirdata = true
same iexdata iexdata = true
same ind_dinode ind_dinode = true
same dinode dinode = true
same _ _ = false

abbrev pub put_list : Flist → List ℕ → (Flist → List ℕ) → Flist → List ℕ
put_list l bs lists k = if same l k then bs else lists k

unfoldable pub taken : Flist → Pool → List ℕ → ℕ × Pool
taken l p (b ∷ bs) = (b, record p { lists = put_list l bs p.lists })
taken l p [] = (
  p.limit,
  record { lists = put_list l (range (p.limit + 1) 127) p.lists; limit = p.limit + 128 },
)

-- The request: the block that it takes, and the pool that is left.
unfoldable pub pool_take : Flist → Pool → ℕ × Pool
unfolding taken
pool_take l p = taken l p (p.lists l)

-- Increasing numbers from `lo` on and below `hi`
abbrev pub Rising : ℕ → ℕ → List ℕ → Type 0
Rising lo hi [] = Unit {0}
Rising lo hi (b ∷ bs) = (lo ≤ b) × (b < hi) × Rising (b + 1) hi bs

abbrev pub Apart : List ℕ → ℕ → Type 0
Apart bs a = All (λ b. b ≢ a) bs

-- The free lists of the file `m` are those of the pool `p`, and no block is in two of them.
pub record IsPool (m : Manager) (p : Pool) : Type 0 where
  pub sound : IsSound m
  pub limit : m.m_size ≡ p.limit
  pub linked : (l : Flist) → FreeList m.world.blocks (head l m.m_sb) (p.lists l)
  pub rising : (l : Flist) → Rising m.m_orgsize p.limit (p.lists l)
  pub apart : (l k : Flist) → same l k ≡ false → All (Apart (p.lists k)) (p.lists l)
