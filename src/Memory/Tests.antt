-- ===== src/Memory/Tests.antt =====
-- Runs of the memory routines, and their theorems at concrete memories.
use fotix.Base.{◌+◌, ◌≡◌, ◌&&◌, leb, ltb, if◌then◌else◌, u8}
use fotix.Memory.{Memory, memset}
use fotix.Memory.Blocks.{memset_lem}

abbrev letters : Memory
letters a = if ltb a 3 then 0x61 + a else 0

memset_lem_example :
    memset letters 1 0x2E 2 2 ≡ (if leb 1 2 && ltb 2 (1 + 2) then u8 0x2E else letters 2)
memset_lem_example = memset_lem letters 1 0x2E 2 2
