-- ===== src/Memory/Words.antt =====
-- 32-bit words in the byte memory, lowest byte first, as the machine keeps them.
use cos.Prelude.{ℕ, ◌+◌, ◌*◌, ◌/◌, ◌%◌, ◌≤◌, ◌<◌, ◌≡◌, ◌⊎◌, arith}
use cos.Memory.Page.{word}
use cos.Memory.KernelHeap.{Bytes, poke}

unfoldable pub read32 : Bytes → ℕ → ℕ
read32 m p = m p + m (p + 1) * 256 + m (p + 2) * 65536 + m (p + 3) * 16777216

unfoldable pub write32 : Bytes → ℕ → ℕ → Bytes
write32 m p v =
    poke (poke (poke (poke m p (v % 256)) (p + 1) (v / 256 % 256)) (p + 2) (v / 65536 % 256))
      (p + 3) (v / 16777216 % 256)

pub read32-write32_self : (m : Bytes) (p v : ℕ) → v < word → read32 (write32 m p v) p ≡ v
unfolding read32 write32
read32-write32_self m p v h = ground arith

pub read32-write32_apart :
    (m : Bytes) (p q v : ℕ) → (p + 4 ≤ q) ⊎ (q + 4 ≤ p) → read32 (write32 m p v) q ≡ read32 m q
unfolding read32 write32
read32-write32_apart m p q v h = ground arith
