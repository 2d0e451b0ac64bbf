-- ===== src/Manager/Io.antt =====
-- `writeData` and `readData` where the device has room, and where it has not.
use tarfs.Base.{ℕ, ◌+◌, ◌-◌, ◌%◌, ◌^◌, ◌≤◌, ◌<◌, ◌≡◌, List, arith, length}
use tarfs.Manager.{Block, Manager, ok, store, write_data, read_data}

-- The file and its size agree with what the manager believes, and the device is one that `off_t`
-- can address.
pub record IsSound (m : Manager) : Type 0 where
  pub agreed : m.world.size ≡ m.m_size
  pub original : m.m_orgsize ≤ m.m_size
  pub fits : m.m_size ≤ m.world.capacity
  pub small : m.world.capacity < 2 ^ 54

-- `m` with blocks of the file replaced
abbrev pub rewritten : Manager → ℕ → List Block → Manager
rewritten m k xs = record m { world = record m.world { blocks = store m.world.blocks k xs } }

-- `m` with `n` blocks written behind the end of the file
abbrev pub extended : Manager → ℕ → List Block → Manager
extended m n xs = record m {
  world = record m.world { size = m.m_size + n; blocks = store m.world.blocks m.m_size xs };
  m_size = m.m_size + n;
  m_sb = record m.m_sb { tarfs_size = (m.m_size + n + 2 ^ 64 - m.m_orgsize) % 2 ^ 64 };
}

module _ {m : Manager} (sound : IsSound m) where
  pub write_data-within :
      (p : List Block) (blkno : ℕ)
      → blkno + length p ≤ m.m_size
      → write_data p blkno m ≡ ok tt (rewritten m blkno p)
  unfolding write_data
  write_data-within p blkno h = ground arith

  pub write_data-extended :
      (p : List Block) (n : ℕ)
      → length p ≡ n
      → 0 < n
      → m.m_size + n ≤ m.world.capacity
      → write_data p m.m_size m ≡ ok tt (extended m n p)
  unfolding write_data
  write_data-extended p n e pos h = ground arith

  pub read_data-within :
      (blkno : ℕ) → blkno < m.m_size → read_data blkno m ≡ ok (m.world.blocks blkno) m
  unfolding read_data
  read_data-within blkno h = ground arith
