-- ===== src/Transfer/Steps.antt =====
-- The steps of a run of the receiver that goes through.
use cmpe272_finaltest_assesm.Prelude.{
  ℕ, ◌≡◌, refl, none, some, List, [], arith, ==_refl, length, text_eq_refl, inl, inr, Option-cases,
}
use cmpe272_finaltest_assesm.Result.{ok}
use cmpe272_finaltest_assesm.Bytes.{Bytes, Text, hex, from_hex}
use cmpe272_finaltest_assesm.Text.{codes}
use cmpe272_finaltest_assesm.Util.Hashing.{sha256_file_lem}
use cmpe272_finaltest_assesm.Json.{Value, num, str, item, is_text, is_int, as_int}
use cmpe272_finaltest_assesm.Receiver.State.{
  LedgerFile, Files, Setting, ledger, no_progress, add_text, load_ledger, load_progress,
  save_progress, record_completed,
}
use cmpe272_finaltest_assesm.Receiver.Manifest.{
  Plan, resolve_transfer_id, fetch_verified_manifest, plan_of,
}
use cmpe272_finaltest_assesm.Receiver.Chunks.{chunk_loop}
use cmpe272_finaltest_assesm.Receiver.Receive.{resume, promote, verify_whole, receive_file, receive}
use cmpe272_finaltest_assesm.Sender.State.{Sending}

-- The sender was given the public half of the receiver's key, and the receiver that of the sender's.
abbrev pub told : Sending → Setting → Sending
told p s = record p { receiver_pub = p.crypto.x25519_public s.receiver_key }

abbrev pub paired : Sending → Setting → Setting
paired p s = record s { crypto = p.crypto; verify_key = p.crypto.ed25519_public p.signing_key }

module _ (s : Setting) (f : Files) (id tid : Bytes) (m : Value) (plan : Plan) where
  -- The steps of a run that goes through.
  pub receive-steps :
      resolve_transfer_id s ≡ ok id
      → from_hex id ≡ ok tid
      → fetch_verified_manifest s id (load_ledger f.ledger_file) ≡ ok m
      → plan_of s tid m ≡ ok plan
      → receive s f ≡ receive_file s id m plan f
  unfolding receive
  receive-steps e0 e1 e2 e3 = ground (arith, e0, e1, e2, e3)

  -- Without progress the run starts with an empty file.
  resume-clean :
      load_progress f.progress_file id ≡ [] → resume id f ≡ (ok [], record f { part = some [] })
  unfolding resume
  resume-clean clean = elim (Option-cases f.part) [
    | inl e ↦ ground (arith, e, clean)
    | inr (c, e) ↦ ground (arith, e, clean)
  ]

  pub receive_file-steps :
      (v : Value) (done : List ℕ) (f1 : Files)
      → load_progress f.progress_file id ≡ []
      → chunk_loop s id plan plan.total_chunks 0 [] (record f { part = some [] }) ≡ (ok done, f1)
      → verify_whole s m (save_progress id done f1) ≡ (ok tt, save_progress id done f1)
      → item m (codes "filename") ≡ ok v
      → receive_file s id m plan f
        ≡ (ok 0, record_completed id (promote (save_progress id done f1)))
  unfolding receive_file
  receive_file-steps v done f1 clean ran verified named =
      ground (arith, resume-clean clean, ran, verified, named)

  pub verify_whole-ok :
      (file : Bytes)
      → f.part ≡ some file
      → item m (codes "file_size") ≡ ok (num (length file))
      → item m (codes "plaintext_sha256") ≡ ok (str (hex (s.crypto.sha256 file)))
      → verify_whole s m f ≡ (ok tt, f)
  unfolding verify_whole is_text is_int as_int
  verify_whole-ok file held size digest = ground (
    arith,
    held,
    sha256_file_lem s.crypto.sha256 file none,
    size,
    digest,
    ==_refl (length file),
    text_eq_refl (hex (s.crypto.sha256 file)),
  )

pub completed :
    (id : Text) (file : Bytes) (f : Files) (l : LedgerFile)
    → f.part ≡ some file
    → f.ledger_file ≡ l
    → record_completed id (promote f) ≡ record {
      part = none;
      progress_file = no_progress;
      out = some file;
      ledger_file = ledger (add_text id (load_ledger l));
    }
unfolding record_completed promote
completed id file f l held same = rw (held, same) refl
