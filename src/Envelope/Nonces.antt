-- ===== src/Envelope/Nonces.antt =====
-- A nonce and its associated data determine the chunk that they were made for.
use cmpe272_finaltest_assesm.Prelude.{
  ℕ, ◌<◌, ◌≡◌, refl, ap, sym, ◌∙◌, ◌∷◌, ◌++◌, arith, length, take, drop, take-append_self,
  drop-append_self,
}
use cmpe272_finaltest_assesm.Result.{ok}
use cmpe272_finaltest_assesm.Bytes.{Bytes, u64_mod, be}
use cmpe272_finaltest_assesm.Bytes.BigEndian.{length-be, be_injective, to_bytes8_lem}
use cmpe272_finaltest_assesm.Envelope.{chunk_nonce, chunk_aad}

pub chunk_nonce_lem :
    (index : ℕ) → index < u64_mod → chunk_nonce index ≡ ok (0 ∷ 0 ∷ 0 ∷ 0 ∷ be 8 index)
unfolding chunk_nonce
chunk_nonce_lem index h = rw (to_bytes8_lem index h)

pub chunk_aad_lem :
    (transfer_id : Bytes) (index total : ℕ)
    → index < u64_mod
    → total < u64_mod
    → chunk_aad transfer_id index total ≡ ok (transfer_id ++ (be 8 index ++ be 8 total))
unfolding chunk_aad
chunk_aad_lem transfer_id index total h h' = rw (to_bytes8_lem index h, to_bytes8_lem total h')

-- Every index of a transfer has a nonce of 12 bytes, and two indices never share one.
pub chunk_nonce_injective :
    (i j : ℕ)
    → i < u64_mod
    → j < u64_mod
    → ((bs : Bytes) × (chunk_nonce i ≡ ok bs) × (length bs ≡ 12))
      × (chunk_nonce i ≡ chunk_nonce j → i ≡ j)
chunk_nonce_injective i j hi hj = (
  (0 ∷ 0 ∷ 0 ∷ 0 ∷ be 8 i, chunk_nonce_lem i hi, omega (arith, length-be 8 i)),
  λ e. be_injective i j hi hj (cc (chunk_nonce_lem i hi, chunk_nonce_lem j hj)),
)

append_injective :
    (xs xs' ys ys' : Bytes)
    → length xs ≡ length xs'
    → xs ++ ys ≡ xs' ++ ys'
    → (xs ≡ xs') × (ys ≡ ys')
append_injective xs xs' ys ys' size e = (
  sym (take-append_self xs ys (length xs) refl)
      ∙ ap (take (length xs)) e
      ∙ take-append_self xs' ys' (length xs) size,
  sym (drop-append_self xs ys (length xs) refl)
      ∙ ap (drop (length xs)) e
      ∙ drop-append_self xs' ys' (length xs) size,
)

-- For transfer ids of one length, the associated data is the same only for the same transfer, the
-- same index and the same total: a chunk that is moved, or that comes from a transfer with another
-- count, has other associated data.
pub chunk_aad_injective :
    (s t : Bytes) (i j m n : ℕ)
    → length s ≡ length t
    → i < u64_mod
    → j < u64_mod
    → m < u64_mod
    → n < u64_mod
    → chunk_aad s i m ≡ chunk_aad t j n
    → (s ≡ t) × (i ≡ j) × (m ≡ n)
chunk_aad_injective s t i j m n size hi hj hm hn e =
    let ids =
      append_injective s t (be 8 i ++ be 8 m) (be 8 j ++ be 8 n) size
        (cc (chunk_aad_lem s i m hi hm, chunk_aad_lem t j n hj hn)) in
    let parts =
      append_injective (be 8 i) (be 8 j) (be 8 m) (be 8 n) (length-be 8 i ∙ sym (length-be 8 j))
        ids.1 in
    (ids.0, be_injective i j hi hj parts.0, be_injective m n hm hn parts.1)
