-- ===== src/Net/Memory.antt =====
-- The byte array `m_MsgBuf` of a packet, with the little-endian words that the code reads and
-- writes through casts of its address. An address beyond the array has whatever stands there.
use evolution078ots.Prelude.{
  ℕ, ◌+◌, ◌*◌, ◌/◌, ◌%◌, ◌^◌, ◌≤◌, ◌<◌, ◌≡◌, ◌⊎◌, arith, ◌==◌, if◌then◌else◌, List, [], ◌∷◌, ◌++◌,
  zero, suc, length, All, refl, ap,
}

abbrev pub Memory : Type 0
Memory = ℕ → ℕ

abbrev pub AreBytes : Memory → Type 0
AreBytes m = (i : ℕ) → m i < 256

-- One byte written.
unfoldable pub store8 : Memory → ℕ → ℕ → Memory
store8 m a v i = if i == a then v % 256 else m i

unfoldable pub load16 : Memory → ℕ → ℕ
load16 m a = m a + m (a + 1) * 256

unfoldable pub store16 : Memory → ℕ → ℕ → Memory
unfolding store8
store16 m a v = store8 (store8 m a v) (a + 1) (v / 256)

unfoldable pub load32 : Memory → ℕ → ℕ
load32 m a = m a + m (a + 1) * 256 + m (a + 2) * 65536 + m (a + 3) * 16777216

unfoldable pub store32 : Memory → ℕ → ℕ → Memory
unfolding store8
store32 m a v =
    store8 (store8 (store8 (store8 m a v) (a + 1) (v / 256)) (a + 2) (v / 65536)) (a + 3)
      (v / 16777216)

-- memcpy of the bytes to `a`, one after the other.
unfoldable pub store_bytes : Memory → ℕ → List ℕ → Memory
unfolding store8
store_bytes m a [] = m
store_bytes m a (b ∷ bs) = store_bytes (store8 m a b) (a + 1) bs

-- The n bytes from `a` on.
unfoldable pub load_bytes : Memory → ℕ → ℕ → List ℕ
load_bytes m a zero = []
load_bytes m a (suc n) = m a ∷ load_bytes m (a + 1) n

-- Two memories hold the same in [lo, hi).
abbrev pub Agree : ℕ → ℕ → Memory → Memory → Type 0
Agree lo hi m n = (i : ℕ) → lo ≤ i → i < hi → m i ≡ n i

pub store8_at : (m : Memory) (a v : ℕ) → store8 m a v a ≡ v % 256
unfolding store8
store8_at m a v = ground arith

pub load16-store16 : (m : Memory) (a v : ℕ) → v < 65536 → load16 (store16 m a v) a ≡ v
unfolding load16 store16
load16-store16 m a v h = ground arith

pub load32-store32 : (m : Memory) (a v : ℕ) → v < 2 ^ 32 → load32 (store32 m a v) a ≡ v
unfolding load32 store32
load32-store32 m a v h = ground arith

pub store32_outside : (m : Memory) (a v i : ℕ) → (i < a) ⊎ (a + 4 ≤ i) → store32 m a v i ≡ m i
unfolding store32
store32_outside m a v i h = ground arith

pub store_bytes_outside :
    (m : Memory) (a i : ℕ) (bs : List ℕ)
    → (i < a) ⊎ (a + length bs ≤ i)
    → store_bytes m a bs i ≡ m i
unfolding store_bytes
store_bytes_outside m a i [] h = refl
store_bytes_outside m a i (b ∷ bs) h =
    ground (arith, store_bytes_outside (store8 m a b) (a + 1) i bs)

pub store_bytes-AreBytes :
    (m : Memory) (a : ℕ) (bs : List ℕ) → AreBytes m → AreBytes (store_bytes m a bs)
unfolding store_bytes
store_bytes-AreBytes m a [] h = h
store_bytes-AreBytes m a (b ∷ bs) h =
    store_bytes-AreBytes (store8 m a b) (a + 1) bs (λ i. ground (arith, h i))

-- What was copied to `a` is read back, in any memory that agrees there.
pub load_bytes-store_bytes :
    (m n : Memory) (a : ℕ) (bs : List ℕ)
    → All (λ b. b < 256) bs
    → Agree a (a + length bs) n (store_bytes m a bs)
    → load_bytes n a (length bs) ≡ bs
unfolding store_bytes load_bytes
load_bytes-store_bytes m n a [] h e = refl
load_bytes-store_bytes m n a (b ∷ bs) h e = ground (
  arith,
  load_bytes-store_bytes (store8 m a b) n (a + 1) bs h.1
      (λ i lo hi. e i (omega arith) (omega arith)),
  e a,
  store_bytes_outside (store8 m a b) (a + 1) a bs,
)

pub length-load_bytes : (m : Memory) (a n : ℕ) → length (load_bytes m a n) ≡ n
unfolding load_bytes
length-load_bytes m a zero = refl
length-load_bytes m a (suc n) = ap suc (length-load_bytes m (a + 1) n)

-- The first part of what was copied, below the second part.
pub store_bytes-append :
    (m : Memory) (a i : ℕ) (bs cs : List ℕ)
    → i < a + length bs
    → store_bytes m a (bs ++ cs) i ≡ store_bytes m a bs i
unfolding store_bytes
store_bytes-append m a i [] cs h = store_bytes_outside m a i cs (ground arith)
store_bytes-append m a i (b ∷ bs) cs h =
    store_bytes-append (store8 m a b) (a + 1) i bs cs (omega arith)

-- Bytes that are copied from one buffer to the same place of another.
pub store_bytes-load_bytes :
    (m n : Memory) (a k : ℕ) → AreBytes n → Agree a (a + k) (store_bytes m a (load_bytes n a k)) n
unfolding store_bytes load_bytes
store_bytes-load_bytes m n a zero h i lo hi = absurd (omega arith)
store_bytes-load_bytes m n a (suc k) h i lo hi = ground (
  arith,
  store_bytes-load_bytes (store8 m a (n a)) n (a + 1) k h i,
  store_bytes_outside (store8 m a (n a)) (a + 1) i (load_bytes n (a + 1) k),
  h a,
)

pub load_bytes-Agree :
    (m n : Memory) (a k : ℕ) → Agree a (a + k) m n → load_bytes m a k ≡ load_bytes n a k
unfolding load_bytes
load_bytes-Agree m n a zero e = refl
load_bytes-Agree m n a (suc k) e =
    ground (arith, e a, load_bytes-Agree m n (a + 1) k (λ i lo hi. e i (omega arith) (omega arith)))
