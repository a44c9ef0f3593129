-- ===== src/Volume/MetaDb/Keys.antt =====
-- The bytes of a key, and their order.
use native.Mathlib.Nat.{pow-suc}
use datom.Common.{
  ℕ, zero, suc, ◌-◌, ◌/◌, ◌%◌, ◌^◌, ◌<◌, ℤ, pos, negsuc, ◌≡◌, refl, ◌∙◌, Bool, true, false, List,
  [], ◌∷◌, length, length-append, All, ap, ◌++◌, arith, ltb, ◌==◌, if◌then◌else◌, ==_iff,
}
use datom.Volume.{Slice}
use datom.Volume.MetaDb.{
  BlobMetaOffsetKey, word, to_word, of_word, to_bytes, of_bytes, to_slice, of_slice,
}

of_bytes-to_bytes : (k w : ℕ) → w < 256 ^ k → of_bytes (to_bytes k w) ≡ w
unfolding of_bytes to_bytes
of_bytes-to_bytes zero w h = omega arith
of_bytes-to_bytes (suc k) w h =
    omega (arith, of_bytes-to_bytes k (w / 256) (omega (arith, pow-suc 256 k)))

-- The values of an int64_t.
abbrev pub InRange : ℤ → Type 0
InRange (pos n) = n < 9223372036854775808
InRange (negsuc n) = n < 9223372036854775808

of_word-to_word : (x : ℤ) → InRange x → of_word (of_bytes (to_bytes 8 (to_word x))) ≡ x
of_word-to_word (pos n) h = rw (of_bytes-to_bytes 8 n (omega arith)) (ground arith)
of_word-to_word (negsuc n) h = rw (of_bytes-to_bytes 8 (word - 1 - n) (omega arith)) (ground arith)

of_slice_words :
    (v w : ℕ)
    → of_slice (to_bytes 8 v ++ to_bytes 8 w) ≡ record {
      blob_id = of_word (of_bytes (to_bytes 8 v));
      offset = of_word (of_bytes (to_bytes 8 w));
    }
unfolding of_slice to_bytes
of_slice_words v w = refl

-- A key with values of an int64_t is read back from its slice.
pub of_slice-to_slice :
    (key : BlobMetaOffsetKey)
    → InRange key.blob_id
    → InRange key.offset
    → of_slice (to_slice key) ≡ key
unfolding to_slice
of_slice-to_slice key h k =
    of_slice_words (to_word key.blob_id) (to_word key.offset)
    ∙ rw (of_word-to_word key.blob_id h, of_word-to_word key.offset k) refl

length-to_bytes : (k w : ℕ) → length (to_bytes k w) ≡ k
unfolding to_bytes
length-to_bytes zero w = refl
length-to_bytes (suc k) w = ap suc (length-to_bytes k (w / 256))

to_bytes_bounded : (k w : ℕ) → All (λ b. b < 256) (to_bytes k w)
unfolding to_bytes
to_bytes_bounded zero w = tt
to_bytes_bounded (suc k) w = (omega arith, to_bytes_bounded k (w / 256))

All-append : (P : ℕ → Type 0) (xs ys : List ℕ) → All P xs → All P ys → All P (xs ++ ys)
All-append P [] ys p q = q
All-append P (x ∷ xs) ys (p, ps) q = (p, All-append P xs ys ps q)

-- The slice of a key has sixteen elements, each of them a byte, and a key with values of an int64_t
-- is read back from it.
pub slice_roundtrip :
    (key : BlobMetaOffsetKey)
    → InRange key.blob_id
    → InRange key.offset
    → (length (to_slice key) ≡ 16)
      × All (λ b. b < 256) (to_slice key)
      × (of_slice (to_slice key) ≡ key)
unfolding to_slice
slice_roundtrip key h k =
    let id = to_bytes 8 (to_word key.blob_id) in
    let offset = to_bytes 8 (to_word key.offset) in
    (
      omega (
        arith,
        length-append id offset,
        length-to_bytes 8 (to_word key.blob_id),
        length-to_bytes 8 (to_word key.offset),
      ),
      All-append (λ b. b < 256) id offset (to_bytes_bounded 8 (to_word key.blob_id))
          (to_bytes_bounded 8 (to_word key.offset)),
      of_slice-to_slice key h k,
    )

-- The bytewise order of RocksDB's default comparator.
unfoldable pub precedes : Slice → Slice → Bool
precedes [] [] = false
precedes [] (b ∷ bs) = true
precedes (a ∷ xs) [] = false
precedes (a ∷ xs) (b ∷ bs) = let rest = precedes xs bs in if a == b then rest else ltb a b

precedes_prefix : (xs ys zs : Slice) → precedes (xs ++ ys) (xs ++ zs) ≡ precedes ys zs
unfolding precedes
precedes_prefix [] ys zs = refl
precedes_prefix (x ∷ xs) ys zs = rw ((==_iff x x).1 refl) (precedes_prefix xs ys zs)

low_byte_first : (v w : ℕ) → v % 256 < w % 256 → precedes (to_bytes 8 v) (to_bytes 8 w) ≡ true
unfolding precedes to_bytes
low_byte_first v w h = ground arith

-- Within a blob, a key whose offset has the smaller low byte comes first, however large the offset.
pub to_slice_order :
    (blob_id : ℤ) (v w : ℕ)
    → v % 256 < w % 256
    → precedes
        (to_slice (record { blob_id = blob_id; offset = pos v }))
        (to_slice (record { blob_id = blob_id; offset = pos w }))
      ≡ true
unfolding to_slice
to_slice_order blob_id v w h =
    precedes_prefix (to_bytes 8 (to_word blob_id)) (to_bytes 8 v) (to_bytes 8 w)
    ∙ low_byte_first v w h
