-- ===== src/Transfer/Promise.antt =====
-- What an honest broker promises a sender.
use cmpe272_finaltest_assesm.Prelude.{
  ◌<◌, ◌≡◌, true, Option, some, List, ◌++◌, ◌=ₜ◌, length, if◌then◌else◌,
}
use cmpe272_finaltest_assesm.Result.{ok}
use cmpe272_finaltest_assesm.Bytes.{Bytes, Text, u64_mod}
use cmpe272_finaltest_assesm.Text.{codes}
use cmpe272_finaltest_assesm.Receiver.State.{contains_text}
use cmpe272_finaltest_assesm.Sender.Chunks.{Client}
use cmpe272_finaltest_assesm.Transfer.Names.{Blob, name_of, IsSmall}

-- The client reads and writes a map from names to blobs, `find`, as far as the blobs of the transfer
-- `id` go: a blob that is put is there, and the others stay.
pub record IsStore {R : Type 0} (client : Client R) (find : Text → R → Option Bytes)
    (IsGood : R → Type 0) (id : Text) : Type 0 where
  pub stored :
      (b : Blob) (bs : Bytes) (r : R)
      → IsSmall b
      → length bs < u64_mod
      → IsGood r
      → (client.put (name_of id b) bs r).0 ≡ ok tt
  pub kept_good :
      (b : Blob) (bs : Bytes) (r : R)
      → IsSmall b
      → length bs < u64_mod
      → IsGood r
      → IsGood (client.put (name_of id b) bs r).1
  pub found :
      (b b' : Blob) (bs : Bytes) (r : R)
      → IsSmall b
      → IsSmall b'
      → length bs < u64_mod
      → IsGood r
      → find (name_of id b') (client.put (name_of id b) bs r).1
        ≡ (if name_of id b =ₜ name_of id b' then some bs else find (name_of id b') r)

-- A listing of the transfer `id` succeeds, and what is listed is there.
pub record IsListed {R : Type 0} (client : Client R) (find : Text → R → Option Bytes) (id : Text)
    (r : R) : Type 0 where
  pub names : List Text
  pub answered : client.list (id ++ codes "/") r ≡ (ok names, r)
  pub listed_there :
      (b : Blob)
      → IsSmall b
      → contains_text names (name_of id b) ≡ true
      → (bs : Bytes) × (find (name_of id b) r ≡ some bs)
