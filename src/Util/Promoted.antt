-- ===== src/Util/Promoted.antt =====
-- The final name when the machine goes down during `atomic_promote`.
use cmpe272_finaltest_assesm.Prelude.{
  ℕ, zero, suc, ◌≡◌, ◌⊎◌, inl, inr, refl, ap, ◌∙◌, ◌≤◌, arith, true, Option, none, some, ◌==◌,
  ==_refl, Bool-cases,
}
use cmpe272_finaltest_assesm.Bytes.{Bytes}
use cmpe272_finaltest_assesm.Util.Durable.{
  Inode, Disk, Stage, syncing, replacing, promoted, synchronised, fsync_path, replace, promote_step,
  promote_steps, whole, torn, Found, nothing, content, Crash, old_names, new_names, held,
}

-- What is synchronised is found as it was.
found_synced :
    (inodes : ℕ → Inode) (o : Option ℕ) (found : Option Bytes)
    → ((j : ℕ) → o ≡ some j → (inodes j).synced ≡ true)
    → Found inodes o found
    → found ≡ held inodes o
found_synced inodes none found safe nothing = refl
found_synced inodes (some j) found safe (content whole) = refl
found_synced inodes (some j) found safe (content (torn bs e)) =
    absurd (ground (arith, e, safe j refl))

synchronised_bytes :
    (i j : ℕ) (inodes : ℕ → Inode) → (synchronised i inodes j).bytes ≡ (inodes j).bytes
synchronised_bytes i j inodes = elim (Bool-cases (j == i)) [
  | inl same ↦ rw same refl
  | inr other ↦ rw other refl
]

synchronised_synced :
    (i j : ℕ) (inodes : ℕ → Inode)
    → (inodes j).synced ≡ true
    → (synchronised i inodes j).synced ≡ true
synchronised_synced i j inodes e = elim (Bool-cases (j == i)) [
  | inl same ↦ rw same refl
  | inr other ↦ rw other e
]

held-synchronised :
    (i : ℕ) (inodes : ℕ → Inode) (o : Option ℕ) → held (synchronised i inodes) o ≡ held inodes o
held-synchronised i inodes none = refl
held-synchronised i inodes (some j) = ap some (synchronised_bytes i j inodes)

-- There is a partial file, of any state, and the disk has what the final name stands for, if anything.
pub record IsReady (d : Disk) (i : ℕ) (bs : Bytes) : Type 0 where
  pub there : d.names.temp ≡ some i
  pub full : (d.inodes i).bytes ≡ bs
  pub settled : d.on_disk.final ≡ d.names.final
  pub safe : (j : ℕ) → d.names.final ≡ some j → (d.inodes j).synced ≡ true

module _ (d : Disk) (i : ℕ) (bs : Bytes) (ready : IsReady d i bs) where
  abbrev flushed : Disk
  flushed = record d { inodes = synchronised i d.inodes }

  abbrev moved : Disk
  moved = record flushed { names = record { temp = none; final = some i } }

  step_syncing : promote_step syncing d ≡ (replacing, flushed)
  unfolding promote_step fsync_path
  step_syncing = ground (arith, ready.there)

  step_replacing : promote_step replacing flushed ≡ (promoted, moved)
  unfolding promote_step replace
  step_replacing = ground (arith, ready.there)

  after_promoted : (n : ℕ) (d : Disk) → promote_steps n (promoted, d) ≡ (promoted, d)
  unfolding promote_steps promote_step
  after_promoted zero d = refl
  after_promoted (suc n) d = after_promoted n d

  ran_1 : promote_steps 1 (syncing, d) ≡ (replacing, flushed)
  unfolding promote_steps
  ran_1 = step_syncing

  ran_2 : (n : ℕ) → promote_steps (suc (suc n)) (syncing, d) ≡ (promoted, moved)
  unfolding promote_steps
  ran_2 n =
      ap (λ (o : Stage × Disk). promote_steps n (promote_step o.0 o.1)) step_syncing
      ∙ ap (promote_steps n) step_replacing
      ∙ after_promoted n moved

  -- What the final name held before.
  abbrev was : Option Bytes
  was = held d.inodes d.names.final

  old_before : (found : Option Bytes) → Found d.inodes d.names.final found → found ≡ was
  old_before found h = found_synced d.inodes d.names.final found ready.safe h

  old_after : (found : Option Bytes) → Found flushed.inodes d.names.final found → found ≡ was
  old_after found h =
      found_synced flushed.inodes d.names.final found
        (λ j e. synchronised_synced i j d.inodes (ready.safe j e)) h
      ∙ held-synchronised i d.inodes d.names.final

  new_after : (found : Option Bytes) → Found moved.inodes (some i) found → found ≡ some bs
  new_after found h =
      found_synced moved.inodes (some i) found (λ j e. ground (arith, e, ==_refl i)) h
      ∙ held-synchronised i d.inodes (some i)
      ∙ ap some ready.full

  Crash-flushed : (found : Option Bytes) → Crash flushed found → found ≡ was
  Crash-flushed found (old_names h) = old_after found (rw ready.settled at h)
  Crash-flushed found (new_names h) = old_after found h

  Crash-before : (found : Option Bytes) → Crash d found → found ≡ was
  Crash-before found (old_names h) = old_before found (rw ready.settled at h)
  Crash-before found (new_names h) = old_before found h

  Crash-moved : (found : Option Bytes) → Crash moved found → (found ≡ was) ⊎ (found ≡ some bs)
  Crash-moved found (old_names h) = inl (old_after found (rw ready.settled at h))
  Crash-moved found (new_names h) = inr (new_after found h)

  -- Whenever the machine goes down while `atomic_promote` runs, and whatever of the partial file was
  -- on the disk before, the final name has what it had, or all the bytes of the partial file; when
  -- `atomic_promote` has returned and nothing goes wrong, it has these.
  pub promote_durable :
      (n : ℕ)
      → ((found : Option Bytes)
          → Crash (promote_steps n (syncing, d)).1 found
          → (found ≡ was) ⊎ (found ≡ some bs))
        × (2 ≤ n
            → ((promote_steps n (syncing, d)).0 ≡ promoted)
              × (held
                    (promote_steps n (syncing, d)).1.inodes
                    (promote_steps n (syncing, d)).1.names.final
                  ≡ some bs))
  promote_durable zero =
      (λ found h. inl (Crash-before found (unfold promote_steps in h)), λ h. absurd (omega arith))
  promote_durable (suc zero) =
      (λ found h. inl (Crash-flushed found (rw ran_1 at h)), λ h. absurd (omega arith))
  promote_durable (suc (suc n)) = (
    λ found h. Crash-moved found (rw (ran_2 n) at h),
    λ h. (
      ap (λ o. o.0) (ran_2 n),
      ap (λ o. held o.1.inodes o.1.names.final) (ran_2 n)
          ∙ held-synchronised i d.inodes (some i)
          ∙ ap some ready.full,
    ),
  )
