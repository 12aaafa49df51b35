-- ===== src/Tls/Safety.antt =====
-- The receiver against a peer that sends anything: it fails closed, and it always ends.
use cmpe272_finaltest_assesm.Prelude.{
  ℕ, ◌≡◌, ◌≢◌, refl, ap, sym, ◌∙◌, [], ◌++◌, ◌⊎◌, none, some, ◌&&◌, arith, ◌==◌, Bool-cases, inl,
  inr, length, text_eq_sound, ◌=ₜ◌,
}
use cmpe272_finaltest_assesm.Result.{Error, Result, Result-cases, ok, err, diverged}
use cmpe272_finaltest_assesm.Exec.{outcome-cases}
use cmpe272_finaltest_assesm.Bytes.{Bytes, pack_q, unpack_qq}
use cmpe272_finaltest_assesm.Socket.{Socket, send_frame, recv_frame}
use cmpe272_finaltest_assesm.Socket.Consume.{
  recv_frame-ReadsFrame, send_frame-Sends, pack_q-ends, unpack_qq-ends,
}
use cmpe272_finaltest_assesm.Tls.Receiver.{
  World, Progress, is_caught, settle, size_or_zero, transfer, finish, try_transfer, receive,
}
use cmpe272_finaltest_assesm.Tls.Start.{kept, progress_at}
use cmpe272_finaltest_assesm.Tls.Sync.{Transfers, transfer-Transfers}
use cmpe272_finaltest_assesm.Tls.Endings.{
  receive-unclaimed, receive-unsent, receive-unanswered, receive-misread, receive-started,
}

module _ (sha256 : Bytes → Bytes) where
  -- The file `c` was promoted: its size is `total`, and its digest is the last thing that was read.
  abbrev Promotes : ℕ → World → Result ℕ × World → Bytes → Type 0
  Promotes total w (r, w') c =
      (r ≡ ok 0)
      × (w'.out ≡ some c)
      × (w'.part ≡ none)
      × (length c ≡ total)
      × ((read : Bytes) × (w.tls.pending ≡ read ++ (sha256 c ++ w'.tls.pending)))

  abbrev Refuses : World → Result ℕ × World → Type 0
  Refuses w (r, w') = (r ≢ ok 0) × (w'.out ≡ w.out)

  abbrev Settles : ℕ → World → Result ℕ × World → Type 0
  Settles total w o = (((c : Bytes) × Promotes total w o c) ⊎ Refuses w o) × (o.0 ≢ err diverged)

  finish-Settles :
      (total : ℕ) (q : Progress) (digest : Bytes) (w w1 : World)
      → Transfers w (ok (q, digest), w1)
      → Settles total w (finish sha256 total (q, digest) w1)
  unfolding finish
  finish-Settles total q digest w w1 (sync, same, (read, e)) =
      elim (Bool-cases (q.received == total && sha256 q.h =ₜ digest)) [
        | inl good ↦
            let digest_is : sha256 q.h ≡ digest =
              ground (arith, text_eq_sound (sha256 q.h) digest) in
            let size : length q.h ≡ total = ground (arith, sync.counted) in
            rw good (
              inl (
                q.h,
                (
                  refl,
                  sync.written,
                  refl,
                  size,
                  (read, e ∙ ap (λ d. read ++ (d ++ w1.tls.pending)) (sym digest_is)),
                ),
              ),
              λ h. cc,
            )
        | inr bad ↦ rw bad (inr (λ h. ground arith, same), λ h. cc)
      ]

  settle-Settles :
      (total : ℕ) (w : World) (o : Result (Progress × Bytes) × World)
      → Transfers w o
      → Settles total w (settle sha256 total o.0 o.1)
  settle-Settles total w (ok (q, digest), w1) t = finish-Settles total q digest w w1 t
  settle-Settles total w (err e, w1) (same, ends) = elim (Bool-cases (is_caught e)) [
    | inl caught ↦ rw caught (inr (λ h. ground arith, same), λ h. cc)
    | inr other ↦ rw other (inr (λ h. cc, same), λ h. ends (ground arith))
  ]

  -- Before the transfer: the claim is sent, the header is read, and the file is opened.
  try_transfer-Settles :
      (total : ℕ) (held : Bytes) (w : World)
      → let w1 = record w { part = some held } in
        Settles total w1 (try_transfer sha256 total (progress_at held) w1)
  unfolding try_transfer
  try_transfer-Settles total held w =
      let w1 : World = record w { part = some held } in
      settle-Settles total w1 (transfer (progress_at held) w1) (
        transfer-Transfers (progress_at held) w1
          (record { written = refl; at_end = refl; counted = refl }))

-- A stream whose bytes have been verified: behind a header that announces the size of the file
-- comes, last of what is read, the digest of the file.
module _ (sha256 : Bytes → Bytes) where
  pub record IsVerified (w w' : World) (c : Bytes) : Type 0 where
    pub promoted : w'.out ≡ some c
    pub unparted : w'.part ≡ none
    pub lead : Bytes
    pub header : Bytes
    pub middle : Bytes
    pub accepted : ℕ
    pub lead_size : length lead ≡ 8
    pub announced : unpack_qq header ≡ ok (length c, accepted)
    pub stream : w.tls.pending ≡ lead ++ (header ++ (middle ++ (sha256 c ++ w'.tls.pending)))

  abbrev pub FailsClosed : World → Result ℕ × World → Type 0
  FailsClosed w (r, w') =
      (((c : Bytes) × (r ≡ ok 0) × IsVerified w w' c) ⊎ ((r ≢ ok 0) × (w'.out ≡ w.out)))
      × (r ≢ err diverged)

  refused : (w w' : World) (e : Error) → w'.out ≡ w.out → e ≢ diverged → FailsClosed w (err e, w')
  refused w w' e same ends = (inr (λ h. cc, same), λ h. ends (ground arith))

  -- What came behind the header, put together with it.
  Settles-FailsClosed :
      (total accepted : ℕ) (prefix header : Bytes) (w w1 : World) (o : Result ℕ × World)
      → w1.out ≡ w.out
      → length prefix ≡ 8
      → unpack_qq header ≡ ok (total, accepted)
      → w.tls.pending ≡ prefix ++ (header ++ w1.tls.pending)
      → Settles sha256 total w1 o
      → FailsClosed w o
  Settles-FailsClosed total accepted prefix header w w1 o same size read e
        (inl (c, (code, out, part, len, (middle, e'))), ends) =
      (
        inl (
          c,
          code,
          record {
            promoted = out;
            unparted = part;
            lead = prefix;
            header = header;
            middle = middle;
            accepted = accepted;
            lead_size = size;
            announced = read ∙ ap (λ n. ok (n, accepted)) (sym len);
            stream = e ∙ ap (λ q. prefix ++ (header ++ q)) e';
          },
        ),
        ends,
      )
  Settles-FailsClosed total accepted prefix header w w1 o same size read e (inr (code, out), ends) =
      (inr (code, out ∙ same), ends)

  -- Whatever the peer sends, and however the connection ends: either the run returns 0, and the final
  -- name holds a file whose size a header announced and whose digest was the last thing read; or it
  -- does not return 0, and the final name is as it was. The loops never run out of fuel.
  pub fail_closed : (w : World) → FailsClosed w (receive sha256 w)
  fail_closed w = elim (Result-cases (pack_q (size_or_zero w.part))) [
    | inr (e, p) ↦
        rw (receive-unclaimed sha256 w [] w.tls w.tls e p) (refused w w e refl (pack_q-ends _ e p))
    | inl (claim, p) ↦ elim (outcome-cases (send_frame claim w.tls)) [
      | inr (e, s1, sent) ↦
          rw (receive-unsent sha256 w claim s1 s1 e p sent)
            (refused w (record w { tls = s1 }) e refl (rw sent at (send_frame-Sends claim w.tls)))
      | inl (u, s1, sent) ↦ claimed claim p s1 sent
    ]
  ]
    where
      claimed :
          (claim : Bytes)
          → pack_q (size_or_zero w.part) ≡ ok claim
          → (s1 : Socket) → send_frame claim w.tls ≡ (ok tt, s1)
          → FailsClosed w (receive sha256 w)
      claimed claim p s1 sent = elim (outcome-cases (recv_frame s1)) [
        | inr (e, s2, got) ↦
            rw (receive-unanswered sha256 w claim s1 s2 e p sent got)
              (refused w (record w { tls = s2 }) e refl (rw got at (recv_frame-ReadsFrame s1)))
        | inl (header, s2, got) ↦
            let (prefix, e, size) = rw got at (recv_frame-ReadsFrame s1) in
            let same = rw sent at (send_frame-Sends claim w.tls) in
            elim (Result-cases (unpack_qq header)) [
              | inr (e', read) ↦
                  rw (receive-misread sha256 w claim s1 s2 e' header p sent got read)
                    (refused w (record w { tls = s2 }) e' refl (unpack_qq-ends header e' read))
              | inl ((total, accepted), read) ↦
                  let held = kept accepted w.part in
                  rw (receive-started sha256 w claim s1 s2 header total accepted p sent got read) (
                    Settles-FailsClosed total accepted prefix header w
                      (record w { tls = s2; part = some held }) _ refl size read (sym same ∙ e)
                      (try_transfer-Settles sha256 total held (record w { tls = s2 })))
            ]
      ]
