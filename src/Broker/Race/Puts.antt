-- ===== src/Broker/Race/Puts.antt =====
-- PUTs of one key, alone and two at the same time.
use cmpe272_finaltest_assesm.Prelude.{
  ℕ, zero, suc, ◌+◌, ◌<◌, ◌≤◌, ◌≡◌, refl, ap, ◌∙◌, ◌⊎◌, inl, inr, Option, none, some, List, [], ◌∷◌,
  append-nil, arith, length, drop, drop_all, Option-cases,
}
use cmpe272_finaltest_assesm.Bytes.{Bytes}
use cmpe272_finaltest_assesm.Broker.Race.{
  Disk, set, open_tmp, write_tmp, opening, renaming, stored, failed, writing, rename_tmp, put_step,
  visible, put_steps, Turn, one, other, Race, race,
}

-- Between two PUTs: no temporary file, and the blob is no unused content.
pub record IsSettled (d : Disk) : Type 0 where
  pub no_tmp : d.tmp ≡ none
  pub used : (i : ℕ) → d.final ≡ some i → i < d.fresh

drop_nil : (n : ℕ) → drop {A = ℕ} n [] ≡ []
drop_nil n = drop_all n [] (omega arith)

after_stored : (bs : Bytes) (n : ℕ) (d : Disk) → put_steps bs n (stored, d) ≡ (stored, d)
unfolding put_steps put_step
after_stored bs zero d = refl
after_stored bs (suc n) d = after_stored bs n d

module _ (bs : Bytes) (d : Disk) (settled : IsSettled d) where
  abbrev opened : Disk
  opened = record d { tmp = some d.fresh; content = set d.fresh [] d.content; fresh = d.fresh + 1 }

  abbrev written : Disk
  written = write_tmp bs d.fresh opened

  abbrev renamed : Disk
  renamed = record written { tmp = none; final = some d.fresh }

  opens : open_tmp d ≡ (d.fresh, opened)
  unfolding open_tmp
  opens = ground (arith, settled.no_tmp)

  renames : rename_tmp written ≡ (stored, renamed)
  unfolding rename_tmp write_tmp
  renames = refl

  -- What is done to an unused content, a GET does not see.
  unseen :
      (t : Option ℕ) (f : ℕ) (content : ℕ → Bytes)
      → ((i : ℕ) → i < d.fresh → content i ≡ d.content i)
      → visible (record d { tmp = t; content = content; fresh = f }) ≡ visible d
  unfolding visible
  unseen t f content same = elim (Option-cases d.final) [
    | inl e ↦ ground (arith, e)
    | inr (i, e) ↦ ground (arith, e, same i (settled.used i e))
  ]

  seen_written : visible renamed ≡ some bs
  unfolding visible write_tmp
  seen_written = ground (arith, drop_nil (length bs), append-nil bs)

  step_opening : put_step bs opening d ≡ (writing d.fresh, opened)
  unfolding put_step
  step_opening = ap (λ (o : ℕ × Disk). (writing o.0, o.1)) opens

  step_renaming : put_step bs renaming written ≡ (stored, renamed)
  unfolding put_step
  step_renaming = renames

  ran_1 : put_steps bs 1 (opening, d) ≡ (writing d.fresh, opened)
  unfolding put_steps
  ran_1 = step_opening

  ran_2 : put_steps bs 2 (opening, d) ≡ (renaming, written)
  unfolding put_steps put_step
  ran_2 = ap (λ (o : ℕ × Disk). (renaming, write_tmp bs o.0 o.1)) opens

  ran_3 : (n : ℕ) → put_steps bs (suc (suc (suc n))) (opening, d) ≡ (stored, renamed)
  unfolding put_steps put_step
  ran_3 n =
      ap (λ (o : ℕ × Disk). put_steps bs n (rename_tmp (write_tmp bs o.0 o.1))) opens
      ∙ ap (put_steps bs n) renames
      ∙ after_stored bs n renamed

  -- A PUT that no other PUT of the key meets: before its third step a GET sees what it saw before, then
  -- the bytes that were put, and never anything else.
  put_atomic :
      (n : ℕ)
      → ((n < 3) × (visible (put_steps bs n (opening, d)).1 ≡ visible d))
        ⊎ ((3 ≤ n)
            × ((put_steps bs n (opening, d)).0 ≡ stored)
            × (visible (put_steps bs n (opening, d)).1 ≡ some bs))
  put_atomic zero = inl (omega arith, unfold put_steps in refl)
  put_atomic (suc zero) = inl (
    omega arith,
    ap (λ o. visible o.1) ran_1
        ∙ unseen (some d.fresh) (d.fresh + 1) (set d.fresh [] d.content) (λ i h. ground arith),
  )
  put_atomic (suc (suc zero)) = inl (
    omega arith,
    ap (λ o. visible o.1) ran_2
        ∙ (unfold write_tmp in
            unseen (some d.fresh) (d.fresh + 1) written.content (λ i h. ground arith)),
  )
  put_atomic (suc (suc (suc n))) =
      inr (omega arith, ap (λ o. o.0) (ran_3 n), ap (λ o. visible o.1) (ran_3 n) ∙ seen_written)

module _ (xs ys : Bytes) (d : Disk) (settled : IsSettled d) where
  abbrev started : Race
  started = record { first = opening; second = opening; disk = d }

  -- Behind the first step everything is known.
  begun :
      (turns : List Turn)
      → race xs ys (one ∷ turns) started
        ≡ race xs ys turns
            (record { first = writing d.fresh; second = opening; disk = opened xs d settled })
  unfolding race put_step
  begun turns =
      ap
        (λ (o : ℕ × Disk).
          race xs ys turns (record { first = writing o.0; second = opening; disk = o.1 }))
        (opens xs d settled)

  torn_lem :
      let r : Race = record {
        first = writing d.fresh;
        second = opening;
        disk = opened xs d settled;
      } in
      let torn = race xs ys (one ∷ other ∷ one ∷ []) r in
      let end = race xs ys (one ∷ other ∷ one ∷ other ∷ other ∷ []) r in
      (torn.first ≡ stored)
      × (visible torn.disk ≡ some [])
      × (end.second ≡ failed)
      × (visible end.disk ≡ some ys)
  unfolding race put_step open_tmp write_tmp rename_tmp visible
  torn_lem = (refl, ground arith, refl, ground (arith, drop_nil (length ys), append-nil ys))

  -- Two PUTs of one key at the same time, in this order of steps: the first opens and writes the
  -- temporary file, the second opens it, which empties it, the first renames it and is done, and a GET
  -- sees an empty blob. Then the second writes, and its rename finds no temporary file, so that it
  -- fails; a GET sees its bytes.
  pub put_race :
      let torn = race xs ys (one ∷ one ∷ other ∷ one ∷ []) started in
      let end = race xs ys (one ∷ one ∷ other ∷ one ∷ other ∷ other ∷ []) started in
      (torn.first ≡ stored)
      × (visible torn.disk ≡ some [])
      × (end.second ≡ failed)
      × (visible end.disk ≡ some ys)
  put_race =
      let (a, b, c, e) = torn_lem in
      let torn = begun (one ∷ other ∷ one ∷ []) in
      let end = begun (one ∷ other ∷ one ∷ other ∷ other ∷ []) in
      (
        ap (λ r. r.first) torn ∙ a,
        ap (λ r. visible r.disk) torn ∙ b,
        ap (λ r. r.second) end ∙ c,
        ap (λ r. visible r.disk) end ∙ e,
      )
