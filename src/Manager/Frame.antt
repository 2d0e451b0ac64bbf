-- ===== src/Manager/Frame.antt =====
-- What a call leaves alone.
use tarfs.Base.{ℕ, ◌≤◌, ◌<◌, ◌≡◌, ◌≢◌, refl, ◌∙◌, [], ◌∷◌, arith, ne→==}
use tarfs.Manager.{Block, Manager, store}
use tarfs.Manager.Io.{rewritten}

-- From `m` to `m'` the spared blocks of the file stay what they are, the file may grow, and the inodes
-- in memory, the next inode number and the device stay the same.
pub record Frame (Spared : ℕ → Type 0) (m m' : Manager) : Type 0 where
  pub kept : (b : ℕ) → b < m.m_size → Spared b → m'.world.blocks b ≡ m.world.blocks b
  pub grows : m.m_size ≤ m'.m_size
  pub orgsize : m'.m_orgsize ≡ m.m_orgsize
  pub free_same : m'.m_free ≡ m.m_free
  pub root_same : m'.m_root ≡ m.m_root
  pub maxino_same : m'.m_sb.tarfs_maxino ≡ m.m_sb.tarfs_maxino
  pub capacity_same : m'.world.capacity ≡ m.world.capacity
  pub memory_same : m'.world.memory ≡ m.world.memory

abbrev pub Any : ℕ → Type 0
Any b = Unit {0}

module _ {Spared : ℕ → Type 0} where
  pub Frame-refl : (m : Manager) → Frame Spared m m
  Frame-refl m = record {
    kept = λ b h s. refl;
    grows = omega arith;
    orgsize = refl;
    free_same = refl;
    root_same = refl;
    maxino_same = refl;
    capacity_same = refl;
    memory_same = refl;
  }

  pub Frame-trans :
      {m m' m'' : Manager} → Frame Spared m m' → Frame Spared m' m'' → Frame Spared m m''
  Frame-trans f g = record {
    kept = λ b h s. g.kept b (omega (arith, f.grows)) s ∙ f.kept b h s;
    grows = omega (arith, f.grows, g.grows);
    orgsize = g.orgsize ∙ f.orgsize;
    free_same = g.free_same ∙ f.free_same;
    root_same = g.root_same ∙ f.root_same;
    maxino_same = g.maxino_same ∙ f.maxino_same;
    capacity_same = g.capacity_same ∙ f.capacity_same;
    memory_same = g.memory_same ∙ f.memory_same;
  }

  pub Frame-Any : {m m' : Manager} → Frame Any m m' → Frame Spared m m'
  Frame-Any f = record {
    kept = λ b h s. f.kept b h tt;
    grows = f.grows;
    orgsize = f.orgsize;
    free_same = f.free_same;
    root_same = f.root_same;
    maxino_same = f.maxino_same;
    capacity_same = f.capacity_same;
    memory_same = f.memory_same;
  }

  -- A further write to one block
  pub Frame-write :
      {m m' : Manager} (q : ℕ) (x : Block)
      → Frame Spared m m'
      → ((b : ℕ) → b < m.m_size → Spared b → b ≢ q)
      → Frame Spared m (rewritten m' q (x ∷ []))
  unfolding store
  Frame-write q x f ne = record {
    kept = λ b h s. rw (ne→== b q (ne b h s)) (f.kept b h s);
    grows = f.grows;
    orgsize = f.orgsize;
    free_same = f.free_same;
    root_same = f.root_same;
    maxino_same = f.maxino_same;
    capacity_same = f.capacity_same;
    memory_same = f.memory_same;
  }
