-- ===== src/Tests/Crash.antt =====
-- A promotion of a partial file that had not reached the disk, over an old file.
use cmpe272_finaltest_assesm.Prelude.{
  ◌≡◌, refl, ◌⊎◌, ◌≤◌, arith, true, false, Option, some, [], ◌∷◌, ◌==◌, if◌then◌else◌,
}
use cmpe272_finaltest_assesm.Bytes.{Bytes}
use cmpe272_finaltest_assesm.Util.Durable.{
  Inode, Disk, syncing, promoted, replace, promote_steps, Crash, new_names, content, torn, held,
}
use cmpe272_finaltest_assesm.Util.Promoted.{IsReady, promote_durable}

abbrev old_file : Inode
old_file = record { bytes = 9 ∷ []; synced = true }

abbrev new_file : Inode
new_file = record { bytes = 1 ∷ 2 ∷ []; synced = false }

abbrev unsynced : Disk
unsynced = record {
  inodes = λ k. if k == 0 then old_file else new_file;
  names = record { temp = some 1; final = some 0 };
  on_disk = record { temp = some 1; final = some 0 };
}

unsynced-IsReady : IsReady unsynced 1 (1 ∷ 2 ∷ [])
unsynced-IsReady = record {
  there = refl;
  full = refl;
  settled = refl;
  safe = λ j e. ground (arith, e);
}

promote_durable_example :
    ((found : Option Bytes)
      → Crash (promote_steps 2 (syncing, unsynced)).1 found
      → (found ≡ some (9 ∷ [])) ⊎ (found ≡ some (1 ∷ 2 ∷ [])))
    × (2 ≤ 2
        → ((promote_steps 2 (syncing, unsynced)).0 ≡ promoted)
          × (held
                (promote_steps 2 (syncing, unsynced)).1.inodes
                (promote_steps 2 (syncing, unsynced)).1.names.final
              ≡ some (1 ∷ 2 ∷ [])))
promote_durable_example = promote_durable unsynced 1 (1 ∷ 2 ∷ []) unsynced-IsReady 2

-- Without the `fsync` an empty file may be found.
torn_without_fsync : Crash (replace unsynced).1 (some [])
unfolding replace
torn_without_fsync = new_names (content (torn [] refl))
