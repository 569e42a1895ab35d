-- ===== src/Storage/Chunks/Cutting.antt =====
-- The chunks of a release are its encoding, cut into pieces of the chunk size.
use helm_operator_plugins.Storage.{Bytes, wrap_release, Codec, ChunkedSecrets}
use helm_operator_plugins.Storage.Chunks.{Chunk, cut, encode_release_as_chunks}
use helm_operator_plugins.Storage.Hash.{hash_for_data}
use helm_operator_plugins.Release.{Release}
use helm_operator_plugins.Prelude.{
  length, take, drop, take-append-drop, length-drop, length-take, All, ok, ℕ, zero, suc, ◌+◌, ◌-◌,
  ◌*◌, ◌≤◌, ◌<◌, String, ◌<>◌, ◌≡◌, refl, ap, ◌⊎◌, List, [], ◌∷◌, ◌++◌, arith,
}

abbrev pub joined : List Chunk → Bytes
joined [] = []
joined (ch ∷ chunks) = ch.bytes ++ joined chunks

abbrev pub Fits : ℕ → Chunk → Type 0
Fits size ch = (0 < length ch.bytes) × (length ch.bytes ≤ size)

one_more : (s n l : ℕ) → s * n < (l - s) + s → 0 < l → s * suc n < l + s
one_more s zero l h positive = omega arith
one_more s (suc n) l h positive = omega arith

module _ (key : String) (size : ℕ) (positive : 0 < size) where
  joined-cut :
      (fuel : ℕ) (rest : Bytes) → length rest ≤ fuel → joined (cut fuel key size rest) ≡ rest
  unfolding cut
  joined-cut zero [] h = refl
  joined-cut zero (b ∷ bs) h = absurd (omega arith)
  joined-cut (suc fuel) [] h = refl
  joined-cut (suc fuel) (b ∷ bs) h =
      rw (joined-cut fuel (drop size (b ∷ bs)) (omega (arith, length-drop size (b ∷ bs))))
        (take-append-drop size (b ∷ bs))

  abbrev piece : ℕ → Bytes → Chunk
  piece b bs = record {
    name = key <> "-" <> hash_for_data (take size (b ∷ bs));
    bytes = take size (b ∷ bs);
  }

  cut_any_fuel :
      (fuel more : ℕ) (rest : Bytes)
      → length rest ≤ fuel
      → length rest ≤ more
      → cut fuel key size rest ≡ cut more key size rest
  unfolding cut
  cut_any_fuel zero zero rest h k = refl
  cut_any_fuel zero (suc more) [] h k = refl
  cut_any_fuel zero (suc more) (b ∷ bs) h k = absurd (omega arith)
  cut_any_fuel (suc fuel) zero [] h k = refl
  cut_any_fuel (suc fuel) zero (b ∷ bs) h k = absurd (omega arith)
  cut_any_fuel (suc fuel) (suc more) [] h k = refl
  cut_any_fuel (suc fuel) (suc more) (b ∷ bs) h k =
      let shorter = length-drop size (b ∷ bs) in
      ap (λ chunks. piece b bs ∷ chunks)
        (cut_any_fuel fuel more (drop size (b ∷ bs)) (omega (arith, shorter))
          (omega (arith, shorter)))

  few_rounds :
      (fuel : ℕ) (rest : Bytes) → length rest ≤ fuel → length (cut fuel key size rest) ≤ length rest
  unfolding cut
  few_rounds zero [] h = omega arith
  few_rounds zero (b ∷ bs) h = absurd (omega arith)
  few_rounds (suc fuel) [] h = omega arith
  few_rounds (suc fuel) (b ∷ bs) h =
      let shorter = length-drop size (b ∷ bs) in
      omega (arith, shorter, few_rounds fuel (drop size (b ∷ bs)) (omega (arith, shorter)))

  Fits-take :
      (b : ℕ) (bs : Bytes)
      → (0 < length (take size (b ∷ bs))) × (length (take size (b ∷ bs)) ≤ size)
  Fits-take b bs = omega (arith, length-take size (b ∷ bs))

  All-Fits-cut : (fuel : ℕ) (rest : Bytes) → All (Fits size) (cut fuel key size rest)
  unfolding cut
  All-Fits-cut zero rest = tt
  All-Fits-cut (suc fuel) [] = tt
  All-Fits-cut (suc fuel) (b ∷ bs) = (Fits-take b bs, All-Fits-cut fuel (drop size (b ∷ bs)))

  length-cut :
      (fuel : ℕ) (rest : Bytes)
      → length rest ≤ fuel
      → (length rest ≤ size * length (cut fuel key size rest))
        × (size * length (cut fuel key size rest) < length rest + size)
  unfolding cut
  length-cut zero [] h = omega arith
  length-cut zero (b ∷ bs) h = absurd (omega arith)
  length-cut (suc fuel) [] h = omega arith
  length-cut (suc fuel) (b ∷ bs) h =
      let shorter : length (drop size (b ∷ bs)) ≤ fuel = omega (arith, length-drop size (b ∷ bs)) in
      let count = length (cut fuel key size (drop size (b ∷ bs))) in
      omega (
        arith,
        length-drop size (b ∷ bs),
        length-cut fuel (drop size (b ∷ bs)) shorter,
        one_more size count (suc (length bs)),
      )

-- With a positive chunk size, the loop of encodeReleaseAsChunks ends of itself after at most one
-- round for each byte of the encoded release: fuel beyond that changes nothing.
pub cut_ends :
    (key : String) (size fuel : ℕ) (rest : Bytes)
    → 0 < size
    → length rest ≤ fuel
    → (cut fuel key size rest ≡ cut (length rest) key size rest)
      × (length (cut fuel key size rest) ≤ length rest)
cut_ends key size fuel rest positive enough = (
  cut_any_fuel key size positive fuel (length rest) rest enough (omega arith),
  few_rounds key size positive fuel rest enough,
)

module _ (codec : Codec) (c : ChunkedSecrets) (key : String) (rls : Release) where
  -- With a positive chunk size, the chunks that encodeReleaseAsChunks returns are the encoded
  -- release in order, none empty and none longer than the chunk size; there are as few as that
  -- allows, and no more than MaxWriteChunks where that is positive.
  pub encode_release_as_chunks_lem :
      (d : Bytes) (chunks : List Chunk)
      → 0 < c.config.chunk_size
      → codec.encode (wrap_release rls) ≡ ok d
      → encode_release_as_chunks codec c key rls ≡ ok chunks
      → (joined chunks ≡ d)
        × All (Fits c.config.chunk_size) chunks
        × (length d ≤ c.config.chunk_size * length chunks)
        × (c.config.chunk_size * length chunks < length d + c.config.chunk_size)
        × ((c.config.max_write_chunks ≡ 0) ⊎ (length chunks ≤ c.config.max_write_chunks))
  unfolding encode_release_as_chunks
  encode_release_as_chunks_lem d chunks positive encoded returned =
      let size = c.config.chunk_size in
      let cuts = cut (length d) key size d in
      let (same, small) = accepted in
      rw (← same) (
        joined-cut key size positive (length d) d (omega arith),
        All-Fits-cut key size positive (length d) d,
        (length-cut key size positive (length d) d (omega arith)).0,
        (length-cut key size positive (length d) d (omega arith)).1,
        small,
      )
    where
      accepted :
          (cut (length d) key c.config.chunk_size d ≡ chunks)
          × ((c.config.max_write_chunks ≡ 0)
              ⊎ (length (cut (length d) key c.config.chunk_size d) ≤ c.config.max_write_chunks))
      accepted = ground (arith, encoded)
