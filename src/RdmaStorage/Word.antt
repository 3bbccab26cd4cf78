-- ===== src/RdmaStorage/Word.antt =====
-- The word that holds the pointer of a page, read from its bytes and written back.
use swap_prefetch.Common.{
  ℕ, zero, suc, ◌+◌, ◌*◌, ◌^◌, ◌≡◌, ◌≤◌, ◌<◌, refl, sym, ap, ◌∙◌, word, arith, ◌⊎◌,
}
use swap_prefetch.RdmaSim.Requests.RoundTrip.{memcpy-start, memcpy-out}
use swap_prefetch.RdmaStorage.{load_word, byte, store_word}

-- a memory of bytes
abbrev pub IsBytes : (ℕ → ℕ) → Type 0
IsBytes m = (i : ℕ) → m i < 256

pub store_word-in : (m : ℕ → ℕ) (a v k : ℕ) → k < 8 → store_word m a v (a + k) ≡ byte v k
unfolding store_word
store_word-in m a v k h = memcpy-start m a (byte v) 8 k h

pub store_word-out : (m : ℕ → ℕ) (a v i : ℕ) → (i < a) ⊎ (a + 8 ≤ i) → store_word m a v i ≡ m i
unfolding store_word
store_word-out m a v i h = memcpy-out m a (byte v) 0 8 i h

-- a word depends on its eight bytes
pub load_word-cong :
    (m n : ℕ → ℕ) (a b : ℕ)
    → ((k : ℕ) → k < 8 → m (a + k) ≡ n (b + k))
    → load_word m a ≡ load_word n b
unfolding load_word
load_word-cong m n a b h =
    let h0 : m a ≡ n b = ap m (sym (plus_zero a)) ∙ h 0 (omega arith) ∙ ap n (plus_zero b) in
    simp
      (
        h0,
        h 1 (omega arith),
        h 2 (omega arith),
        h 3 (omega arith),
        h 4 (omega arith),
        h 5 (omega arith),
        h 6 (omega arith),
        h 7 (omega arith),
      )
      refl
  where
    plus_zero : (x : ℕ) → x + 0 ≡ x
    plus_zero x = omega arith

-- the number that eight bytes stand for
abbrev from_bytes : (b : ℕ → ℕ) → ℕ
from_bytes b =
    b 0
    + 2 ^ 8 * b 1
    + 2 ^ 16 * b 2
    + 2 ^ 24 * b 3
    + 2 ^ 32 * b 4
    + 2 ^ 40 * b 5
    + 2 ^ 48 * b 6
    + 2 ^ 56 * b 7

from_bytes-byte : (v : ℕ) → v < word → from_bytes (byte v) ≡ v
unfolding byte
from_bytes-byte v h = omega arith

byte-from_bytes : (b : ℕ → ℕ) (k : ℕ) → ((i : ℕ) → b i < 256) → k < 8 → byte (from_bytes b) k ≡ b k
unfolding byte
byte-from_bytes b zero s h = omega (arith, s 0, s 1, s 2, s 3, s 4, s 5, s 6, s 7)
byte-from_bytes b (suc zero) s h = omega (arith, s 0, s 1, s 2, s 3, s 4, s 5, s 6, s 7)
byte-from_bytes b (suc (suc zero)) s h = omega (arith, s 0, s 1, s 2, s 3, s 4, s 5, s 6, s 7)
byte-from_bytes b (suc (suc (suc zero))) s h = omega (arith, s 0, s 1, s 2, s 3, s 4, s 5, s 6, s 7)
byte-from_bytes b (suc (suc (suc (suc zero)))) s h =
    omega (arith, s 0, s 1, s 2, s 3, s 4, s 5, s 6, s 7)
byte-from_bytes b (suc (suc (suc (suc (suc zero))))) s h =
    omega (arith, s 0, s 1, s 2, s 3, s 4, s 5, s 6, s 7)
byte-from_bytes b (suc (suc (suc (suc (suc (suc zero)))))) s h =
    omega (arith, s 0, s 1, s 2, s 3, s 4, s 5, s 6, s 7)
byte-from_bytes b (suc (suc (suc (suc (suc (suc (suc zero))))))) s h =
    omega (arith, s 0, s 1, s 2, s 3, s 4, s 5, s 6, s 7)
byte-from_bytes b (suc (suc (suc (suc (suc (suc (suc (suc k)))))))) s h = absurd (omega arith)

pub load_word-store_word : (m : ℕ → ℕ) (a v : ℕ) → v < word → load_word (store_word m a v) a ≡ v
unfolding load_word
load_word-store_word m a v h =
    let at0 : store_word m a v a ≡ byte v 0 =
      ap (store_word m a v) (plus_zero a) ∙ store_word-in m a v 0 (omega arith) in
    simp
      (
        at0,
        store_word-in m a v 1 (omega arith),
        store_word-in m a v 2 (omega arith),
        store_word-in m a v 3 (omega arith),
        store_word-in m a v 4 (omega arith),
        store_word-in m a v 5 (omega arith),
        store_word-in m a v 6 (omega arith),
        store_word-in m a v 7 (omega arith),
      )
      (from_bytes-byte v h)
  where
    plus_zero : (x : ℕ) → x ≡ x + 0
    plus_zero x = omega arith

load_word-from_bytes : (m : ℕ → ℕ) (a : ℕ) → load_word m a ≡ from_bytes (λ i. m (a + i))
unfolding load_word
load_word-from_bytes m a =
    ap
      (λ x.
        m x
        + 2 ^ 8 * m (a + 1)
        + 2 ^ 16 * m (a + 2)
        + 2 ^ 24 * m (a + 3)
        + 2 ^ 32 * m (a + 4)
        + 2 ^ 40 * m (a + 5)
        + 2 ^ 48 * m (a + 6)
        + 2 ^ 56 * m (a + 7))
      (plus_zero a)
  where
    plus_zero : (x : ℕ) → x ≡ x + 0
    plus_zero x = omega arith

-- the bytes of a word that was read
pub byte-load_word : (m : ℕ → ℕ) (a k : ℕ) → IsBytes m → k < 8 → byte (load_word m a) k ≡ m (a + k)
byte-load_word m a k s h =
    ap (λ v. byte v k) (load_word-from_bytes m a)
    ∙ byte-from_bytes (λ i. m (a + i)) k (λ i. s (a + i)) h

pub load_word-lt : (m : ℕ → ℕ) (a : ℕ) → IsBytes m → load_word m a < word
unfolding load_word
load_word-lt m a s =
    omega (arith, s a, s (a + 1), s (a + 2), s (a + 3), s (a + 4), s (a + 5), s (a + 6), s (a + 7))

pub load_word-zero : (a : ℕ) → load_word (λ _. 0) a ≡ 0
unfolding load_word
load_word-zero a = refl
