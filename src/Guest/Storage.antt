-- ===== src/Guest/Storage.antt =====
-- The size of the storage of buildah in the VM, against the memory of the VM.
use openshell_image_builder.Base.{ℕ, ◌+◌, ◌*◌, ◌/◌, ◌^◌, ◌≤◌, ◌<◌, ◌≡◌, arith}
use openshell_image_builder.Base.Int.{pos}
use openshell_image_builder.Shell.{wrapped, divided}
use openshell_image_builder.Guest.{storage_mb}

wrapped-eq_self : (n : ℕ) → n < 2 ^ 63 → wrapped n ≡ pos n
unfolding wrapped
wrapped-eq_self n h = ground (arith, h)

-- For a memory of fewer than 2^61 KiB, more than `--vm-memory` can ask for, the arithmetic of the
-- script does not overflow: the size is the largest number of MiB that is at most three quarters of
-- the memory.
pub storage_mb-largest :
    (mem_kb : ℕ)
    → mem_kb < 2 ^ 61
    → (mb : ℕ) × ((storage_mb mem_kb ≡ pos mb)
        × ((mb * 1024 * 4 ≤ mem_kb * 3) × (mem_kb * 3 < (mb + 1) * 1024 * 4)))
unfolding storage_mb divided
storage_mb-largest mem_kb h =
    let small : mem_kb * 3 < 2 ^ 63 = omega (arith, h) in
    (mem_kb * 3 / 4 / 1024, (rw (wrapped-eq_self (mem_kb * 3) small), (omega arith, omega arith)))
