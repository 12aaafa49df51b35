-- ===== src/Transfer/Store.antt =====
-- What the chunks of an upload leave on an honest broker.
use cmpe272_finaltest_assesm.Prelude.{
  ℕ, zero, suc, ◌+◌, ◌*◌, ◌≤◌, ◌<◌, ◌≡◌, refl, ap, ◌∙◌, true, Option, some, List, ◌++◌, arith, ◌==◌,
  inl, inr, Bool-cases, length, take, drop, text_eq_refl, drop-drop, take-append-take,
}
use cmpe272_finaltest_assesm.Result.{Result, ok}
use cmpe272_finaltest_assesm.Bytes.{Bytes, Text, u64_mod}
use cmpe272_finaltest_assesm.Util.{chunk_size}
use cmpe272_finaltest_assesm.Envelope.{Crypto, chunk_key}
use cmpe272_finaltest_assesm.Json.{Value, Items, nil, cons}
use cmpe272_finaltest_assesm.Receiver.State.{contains_text}
use cmpe272_finaltest_assesm.Sender.Sealing.{chunk_record, seal_chunk}
use cmpe272_finaltest_assesm.Sender.Sealed.{ciphertext, seal_chunk_lem}
use cmpe272_finaltest_assesm.Sender.Chunks.{Client, put_missing, send_chunks}
use cmpe272_finaltest_assesm.Transfer.Names.{chunk, name_of-ne}
use cmpe272_finaltest_assesm.Transfer.Promise.{IsStore}

module _ {R : Type 0} (client : Client R) (already : List Text) (c : Crypto) (key : Bytes)
    (id : Text) (tid : Bytes) (total : ℕ) where
  -- One round of the loop, by what its steps give.
  send_chunks-step :
      (rounds index : ℕ) (rest h : Bytes) (made : Bytes × Value) (r r' r2 : R) (out : Bytes × Items)
      → seal_chunk c key tid total index (take chunk_size rest) ≡ ok made
      → put_missing client already (chunk_key id index) made.0 r ≡ (ok tt, r')
      → send_chunks client already c key id tid total rounds
          (index + 1)
          (drop chunk_size rest)
          (h ++ take chunk_size rest)
          r'
        ≡ (ok out, r2)
      → send_chunks client already c key id tid total (suc rounds) index rest h r
        ≡ (ok (out.0, cons made.1 out.1), r2)
  unfolding send_chunks
  send_chunks-step rounds index rest h made r r' r2 out e put later = ground (arith, e, put, later)

-- A chunk of the file, and what the sender makes of it.
unfoldable pub piece : Bytes → ℕ → Bytes
piece file i = take chunk_size (drop (i * chunk_size) file)

module _ (c : Crypto) (key tid : Bytes) (total : ℕ) (file : Bytes) where
  unfoldable pub sealed : ℕ → Bytes
  sealed i = ciphertext c key tid total i (piece file i)

  unfoldable pub record_of : ℕ → Value
  record_of i = chunk_record i (piece file i) (sealed i) c

  seal_at :
      (i : ℕ)
      → i < total
      → total < u64_mod
      → seal_chunk c key tid total i (take chunk_size (drop (i * chunk_size) file))
        ≡ ok (sealed i, record_of i)
  unfolding sealed record_of piece
  seal_at i small fits = seal_chunk_lem c key tid total i (piece file i) (omega arith) fits

  -- The records in the order of the manifest.
  unfoldable pub records_from : ℕ → ℕ → Items
  records_from zero index = nil
  records_from (suc rounds) index = cons (record_of index) (records_from rounds (index + 1))

  module _ {R : Type 0} (client : Client R) (find : Text → R → Option Bytes) (IsGood : R → Type 0)
      (id : Text) (store : IsStore client find IsGood id) where
    -- The first chunks are there.
    abbrev pub Holds : ℕ → R → Type 0
    Holds n r = (i : ℕ) → i < n → find (chunk_key id i) r ≡ some (sealed i)

    -- Every chunk that the sender will not send is there.
    abbrev pub IsRight : List Text → R → Type 0
    IsRight already r =
        (i : ℕ)
        → i < total
        → contains_text already (chunk_key id i) ≡ true
        → find (chunk_key id i) r ≡ some (sealed i)

    -- A put of a chunk leaves every chunk that was there, and adds this one.
    module _ (index : ℕ) (r : R) (small : index < total) (fits : total < u64_mod)
        (size : length (sealed index) < u64_mod) (good : IsGood r) where
      abbrev after_put : R
      after_put = (client.put (chunk_key id index) (sealed index) r).1

      put_own : find (chunk_key id index) after_put ≡ some (sealed index)
      put_own = ground (
        arith,
        store.found (chunk index) (chunk index) (sealed index) r (omega arith) (omega arith) size
            good,
        text_eq_refl (chunk_key id index),
      )

      put_keeps :
          (i : ℕ)
          → i < total
          → find (chunk_key id i) r ≡ some (sealed i)
          → find (chunk_key id i) after_put ≡ some (sealed i)
      put_keeps i h there = elim (Bool-cases (index == i)) [
        | inl same ↦ let e : index ≡ i = ground arith in rw (← e) put_own
        | inr other ↦
            let ne = name_of-ne id (chunk index) (chunk i) (λ e. ground arith) in
            store.found (chunk index) (chunk i) (sealed index) r (omega arith) (omega arith) size
              good
            ∙ rw ne there
      ]

    -- One round of the loop.
    record Round (index : ℕ) (r r' : R) : Type 0 where
      good : IsGood r'
      own : find (chunk_key id index) r' ≡ some (sealed index)
      keeps :
          (i : ℕ)
          → i < total
          → find (chunk_key id i) r ≡ some (sealed i)
          → find (chunk_key id i) r' ≡ some (sealed i)

    module _ (already : List Text) where
      put_missing_lem :
          (index : ℕ) (r : R)
          → index < total
          → total < u64_mod
          → length (sealed index) < u64_mod
          → IsGood r
          → IsRight already r
          → (r' : R) × (put_missing client already (chunk_key id index) (sealed index) r
              ≡ (ok tt, r'))
            × Round index r r'
      unfolding put_missing
      put_missing_lem index r small fits size good right =
          elim (Bool-cases (contains_text already (chunk_key id index))) [
            | inl old ↦ (
              r,
              rw old refl,
              record { good = good; own = right index small old; keeps = λ i h there. there },
            )
            | inr new ↦
                let ran = store.stored (chunk index) (sealed index) r (omega arith) size good in
                (
                  after_put index r small fits size good,
                  rw new
                      (ap (λ (q : Result Unit). (q, after_put index r small fits size good)) ran),
                  record {
                    good = store.kept_good (chunk index) (sealed index) r (omega arith) size good;
                    own = put_own index r small fits size good;
                    keeps = put_keeps index r small fits size good;
                  },
                )
          ]

      extend :
          (index : ℕ) (r r' : R)
          → index < total
          → Round index r r'
          → Holds index r
          → Holds (index + 1) r'
      extend index r r' small round holds i h = elim (Bool-cases (i == index)) [
        | inl same ↦ let e : i ≡ index = ground arith in rw e round.own
        | inr other ↦ let lt : i < index = ground arith in round.keeps i (omega arith) (holds i lt)
      ]

      -- All chunks from `index` on.
      pub send_chunks_lem :
          (rounds index : ℕ) (r : R)
          → index + rounds ≤ total
          → total < u64_mod
          → ((i : ℕ) → i < total → length (sealed i) < u64_mod)
          → IsGood r
          → IsRight already r
          → Holds index r
          → (r' : R) × (send_chunks client already c key id tid total rounds index
                (drop (index * chunk_size) file)
                (take (index * chunk_size) file)
                r
              ≡ (ok (take ((index + rounds) * chunk_size) file, records_from rounds index), r'))
            × Holds (index + rounds) r'
            × IsGood r'
      unfolding send_chunks records_from
      send_chunks_lem zero index r le fits sizes good right holds = (
        r,
        ap (λ (k : ℕ). (ok (take (k * chunk_size) file, nil), r)) (omega arith),
        λ i h. holds i (omega arith),
        good,
      )
      send_chunks_lem (suc rounds) index r le fits sizes good right holds =
          let (r1, put, round) =
            put_missing_lem index r (omega arith) fits (sizes index (omega arith)) good right in
          let (r2, later, all, good2) =
            send_chunks_lem rounds (index + 1) r1 (omega arith) fits sizes round.good
              (λ i h old. round.keeps i h (right i h old))
              (extend index r r1 (omega arith) round holds) in
          (
            r2,
            send_chunks-step client already c key id tid total rounds index
                  (drop (index * chunk_size) file) (take (index * chunk_size) file)
                  (sealed index, record_of index) r r1 r2
                  (take ((index + 1 + rounds) * chunk_size) file, records_from rounds (index + 1))
                  (seal_at index (omega arith) fits) put
                  (rw
                    (
                      drop-drop (index * chunk_size) chunk_size ((index + 1) * chunk_size) file
                          (omega arith),
                      take-append-take (index * chunk_size) chunk_size ((index + 1) * chunk_size)
                          file (omega arith),
                    )
                    later)
                ∙ ap
                    (λ (k : ℕ). (
                      ok (
                        take (k * chunk_size) file,
                        cons (record_of index) (records_from rounds (index + 1)),
                      ),
                      r2,
                    ))
                    (omega arith),
            λ i h. all i (omega arith),
            good2,
          )
