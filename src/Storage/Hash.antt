-- ===== src/Storage/Hash.antt =====
-- hashForData of pkg/storage/chunked.go: FNV-1a over 64 bits, written in base 32.
use Prim.Native.Nat.{bit_xor}
use helm_operator_plugins.Storage.{Bytes}
use helm_operator_plugins.Prelude.{ℕ, zero, suc, ◌*◌, ◌/◌, ◌%◌, ◌^◌, String, ◌<>◌, List, [], ◌∷◌}

-- hash/fnv, New64a: each byte is mixed in by XOR and then multiplied by the prime.
fnv64a : ℕ → Bytes → ℕ
fnv64a h [] = h
fnv64a h (b ∷ bs) = fnv64a (bit_xor h b * 1099511628211 % 2 ^ 64) bs

abbrev alphabet : List String
alphabet =
    "a" ∷ "b" ∷ "c" ∷ "d" ∷ "e" ∷ "f" ∷ "g" ∷ "h" ∷ "i" ∷ "j" ∷ "k" ∷ "l" ∷ "m" ∷ "n" ∷ "o" ∷ "p"
    ∷ "q" ∷ "r" ∷ "s" ∷ "t" ∷ "u" ∷ "v" ∷ "w" ∷ "x" ∷ "y" ∷ "z" ∷ "1" ∷ "2" ∷ "3" ∷ "4" ∷ "5" ∷ "6"
    ∷ []

letter : List String → ℕ → String
letter [] n = ""
letter (l ∷ ls) zero = l
letter (l ∷ ls) (suc n) = letter ls n

-- The `n` lowest digits in base 32, the highest first.
base32_digits : ℕ → ℕ → String
unfolding letter
base32_digits zero v = ""
base32_digits (suc n) v = base32_digits n (v / 32) <> letter alphabet (v % 32)

-- Eight bytes are 64 bits, which an encoder with no padding writes as 13 letters, a zero bit last.
unfoldable pub hash_for_data : Bytes → String
unfolding fnv64a base32_digits
hash_for_data bs = base32_digits 13 (fnv64a 14695981039346656037 bs * 2)
