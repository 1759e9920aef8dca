-- ===== src/DevMem.antt =====
-- tools/mem_loader: the windows of /dev/mem that the loader fills and the dump tool reads, as lists
-- of 32-bit words. `Load` is mem_loader.c and `Dump` is mem_dump.c; `Journal` is what
-- both acquire, release and report, in order.
pub mod Load
pub mod Dump
pub mod Window
pub mod Loaded
pub mod Dumped
pub mod Journal
pub mod Balanced
use trace_fs.Base.{ℕ, zero, suc, ◌+◌, ◌*◌, ◌/◌, ◌%◌, ◌^◌, List, get_or, set}

-- `xs[i] = f(i)` for a number of indices counted up from i, as the copying loops do it.
unfoldable pub store_each {ℓ} : {A : Type ℓ} → (ℕ → A) → ℕ → ℕ → List A → List A
store_each f zero i xs = xs
store_each f (suc n) i xs = store_each f n (i + 1) (set xs i (f i))

-- Byte n of a window, on a little-endian host.
abbrev pub window_byte : List ℕ → ℕ → ℕ
window_byte w n = get_or w (n / 4) 0 / 2 ^ (8 * (n % 4)) % 2 ^ 8
