-- ===== src/Ipc/Words.antt =====
-- Words, keys and return codes as bytes and back.
use opx_cps.Common.{
  ℕ, suc, ◌*◌, ◌<◌, ◌^◌, ◌≡◌, refl, List, [], ◌∷◌, ◌++◌, append-nil, subst, arith, length, drop,
  pos, negsuc,
}
use opx_cps.Key.{Key, elem_mod, bytes}
use opx_cps.Key.Compare.{Words}
use opx_cps.Ipc.{word_at, words_of, key_memory, key_of, rc_word, word_rc, header_bytes}

pub length-bytes : (xs : List ℕ) → length (bytes xs) ≡ 4 * length xs
unfolding bytes
length-bytes [] = refl
length-bytes (x ∷ xs) = omega (arith, length-bytes xs)

pub word_at-bytes : (x : ℕ) (xs r : List ℕ) → x < elem_mod → word_at (bytes (x ∷ xs) ++ r) 0 ≡ x
unfolding bytes word_at
word_at-bytes x xs r h = omega arith

pub second-bytes :
    (x y : ℕ) (xs r : List ℕ) → y < elem_mod → word_at (bytes (x ∷ y ∷ xs) ++ r) 4 ≡ y
unfolding bytes word_at
second-bytes x y xs r h = omega arith

words_of-cons :
    (x n : ℕ) (xs r : List ℕ)
    → word_at (bytes (x ∷ xs) ++ r) 0 ≡ x
    → words_of n (bytes xs ++ r) ≡ xs
    → words_of (suc n) (bytes (x ∷ xs) ++ r) ≡ x ∷ xs
unfolding words_of bytes
words_of-cons x n xs r e ih = λ i. e i ∷ ih i

-- The words of bytes that begin with those of words of 32 bits.
pub words_of-bytes : (xs r : List ℕ) → Words xs → words_of (length xs) (bytes xs ++ r) ≡ xs
unfolding words_of
words_of-bytes [] r h = refl
words_of-bytes (x ∷ xs) r h =
    words_of-cons x (length xs) xs r (word_at-bytes x xs r h.0) (words_of-bytes xs r h.1)

-- A key whose memory is words of 32 bits.
pub record IsWords (k : Key) : Type 0 where
  pub size : length k.slots ≡ 62
  pub len : k.len < elem_mod
  pub attr : k.attr < elem_mod
  pub slots : Words k.slots

pub length-key_memory : (k : Key) → IsWords k → length (key_memory k) ≡ 256
unfolding key_memory
length-key_memory k v = omega (arith, length-bytes (k.len ∷ k.attr ∷ k.slots), v.size)

pub key_of-key_memory : (k : Key) → IsWords k → key_of (key_memory k) ≡ k
unfolding key_of key_memory
key_of-key_memory k v =
    let all : bytes (k.len ∷ k.attr ∷ k.slots) ++ [] ≡ bytes (k.len ∷ k.attr ∷ k.slots) =
      append-nil _ in
    let len =
      subst (λ b. word_at b 0 ≡ k.len) all (word_at-bytes k.len (k.attr ∷ k.slots) [] v.len) in
    let attr =
      subst (λ b. word_at b 4 ≡ k.attr) all (second-bytes k.len k.attr k.slots [] v.attr) in
    let rest : drop 8 (bytes (k.len ∷ k.attr ∷ k.slots)) ≡ bytes k.slots = unfold bytes in refl in
    let slots : words_of 62 (drop 8 (bytes (k.len ∷ k.attr ∷ k.slots))) ≡ k.slots = rw rest (
      subst (λ n. words_of n (bytes k.slots) ≡ k.slots) v.size
        (subst (λ b. words_of (length k.slots) b ≡ k.slots) (append-nil _)
          (words_of-bytes k.slots [] v.slots))) in
    λ i. record { len = len i; attr = attr i; slots = slots i }

pub word_rc-rc_word :
    (n : ℕ)
    → n < 2 ^ 31
    → (word_rc (rc_word (pos n)) ≡ pos n) × (word_rc (rc_word (negsuc n)) ≡ negsuc n)
unfolding word_rc rc_word
word_rc-rc_word n h = (ground arith, ground arith)

-- What a header's bytes say, and how many they are.
pub header-length : (op len : ℕ) → length (header_bytes op len) ≡ 12
unfolding header_bytes
header-length op len = length-bytes (0 ∷ len ∷ op ∷ [])

pub header-fields :
    (op len : ℕ)
    → op < elem_mod
    → len < elem_mod
    → (word_at (header_bytes op len) 8 ≡ op) × (word_at (header_bytes op len) 4 ≡ len)
unfolding header_bytes bytes word_at
header-fields op len h k = (omega arith, omega arith)
