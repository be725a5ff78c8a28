-- ===== src/Pool/Config.antt =====
-- src/pool/config.rs: the sizes of a pool, and the presets.
use secbuf.Prelude.{ℕ}

pub record PoolConfig : Type 0 where
  pub buffer_size : ℕ
  pub max_pool_size : ℕ
  pub min_pool_size : ℕ

abbrev pub default : PoolConfig
default = record { buffer_size = 8192; max_pool_size = 100; min_pool_size = 10 }

abbrev pub small : PoolConfig
small = record { buffer_size = 1024; max_pool_size = 20; min_pool_size = 5 }

abbrev pub large : PoolConfig
large = record { buffer_size = 65_536; max_pool_size = 1000; min_pool_size = 50 }

abbrev pub network : PoolConfig
network = record { buffer_size = 1500; max_pool_size = 500; min_pool_size = 20 }
