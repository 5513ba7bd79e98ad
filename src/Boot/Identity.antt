-- ===== src/Boot/Identity.antt =====
-- The first 4 MB after the second loop of `initialise_paging`.
use fotix.Memory.{Memory}
use fotix.Kernel.{Kernel}
use fotix.Paging.Directory.{Kmalloc}
