-- ===== src/Tests/Puts.antt =====
-- PUTs of one key at the same time, at concrete inputs.
use cmpe272_finaltest_assesm.Prelude.{ℕ, ◌<◌, ◌≡◌, refl, [], ◌∷◌, Option, none, some, arith}
use cmpe272_finaltest_assesm.Bytes.{Bytes}
use cmpe272_finaltest_assesm.Broker.Race.{
  Disk, opening, stored, failed, visible, one, other, Race, race,
}
use cmpe272_finaltest_assesm.Broker.Race.Puts.{IsSettled, put_race}

abbrev payload : Bytes
payload = 4 ∷ 5 ∷ []

-- A blob of one byte is there before.
abbrev old_disk : Disk
old_disk = record { tmp = none; final = some 0; content = λ i. 1 ∷ []; fresh = 1 }

zero_used : (i : ℕ) → ◌≡◌ {A = Option ℕ} (some 0) (some i) → i < 1
zero_used i e = ground arith

old-IsSettled : IsSettled old_disk
old-IsSettled = record { no_tmp = refl; used = zero_used }

put_race_example :
    let start : Race = record { first = opening; second = opening; disk = old_disk } in
    let torn = race payload (7 ∷ []) (one ∷ one ∷ other ∷ one ∷ []) start in
    let end = race payload (7 ∷ []) (one ∷ one ∷ other ∷ one ∷ other ∷ other ∷ []) start in
    (torn.first ≡ stored)
    × (visible torn.disk ≡ some [])
    × (end.second ≡ failed)
    × (visible end.disk ≡ some (7 ∷ []))
put_race_example = put_race payload (7 ∷ []) old_disk old-IsSettled
