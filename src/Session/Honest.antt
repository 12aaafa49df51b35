-- ===== src/Session/Honest.antt =====
-- The model of broker.py, reached over the wire, keeps the promises that the sender needs.
use cmpe272_finaltest_assesm.Prelude.{
  ℕ, ◌+◌, ◌≤◌, ◌<◌, ◌≡◌, refl, ap, sym, ◌∙◌, Bool, true, false, Option, none, some, ◌∷◌, ◌++◌,
  arith, ◌=ₜ◌, text_eq_iff, length, length-append, if◌then◌else◌,
}
use cmpe272_finaltest_assesm.Result.{Result, ok}
use cmpe272_finaltest_assesm.Bytes.{Bytes, Text, u64_mod}
use cmpe272_finaltest_assesm.Text.{codes}
use cmpe272_finaltest_assesm.Broker.Key.{is_namespace_char}
use cmpe272_finaltest_assesm.Broker.Storage.{Storage, read_file, store_blob, list_keys}
use cmpe272_finaltest_assesm.Broker.Command.{Codec, find_blob, join_lines}
use cmpe272_finaltest_assesm.Broker.Confined.{all, avoids, namespace_avoids}
use cmpe272_finaltest_assesm.Broker.Legal.{all-append, all_weaken}
use cmpe272_finaltest_assesm.Broker.Blobs.{blob, key_eq, store_blob-Stores}
use cmpe272_finaltest_assesm.Broker.Listed.{Entry, list_keys_sound}
use cmpe272_finaltest_assesm.Broker.Every.{Every, Every-weaken, Every-contains_text}
use cmpe272_finaltest_assesm.Broker.Replies.{Fits}
use cmpe272_finaltest_assesm.Client.{
  command, put_request, parse_put, get_request, parse_get, list_request, parse_list, lines,
}
use cmpe272_finaltest_assesm.Sender.Chunks.{Client}
use cmpe272_finaltest_assesm.Transfer.Names.{Blob, name_of, IsSmall}
use cmpe272_finaltest_assesm.Transfer.Keys.{
  file_of, name_of-file_of, IsTransferId, safe_path-name_of, not_dot, name_of_tmp,
}
use cmpe272_finaltest_assesm.Transfer.Promise.{IsStore, IsListed}
use cmpe272_finaltest_assesm.Session.{call}
use cmpe272_finaltest_assesm.Session.Commands.{put_over_wire, get_over_wire, list_over_wire}
use cmpe272_finaltest_assesm.Session.Lines.{IsLine, lines-join_lines, all-join_lines}
use cmpe272_finaltest_assesm.Session.Tidy.{
  is_ascii, IsUtf8, IsTidy, own_ascii, key_small, store_blob-IsTidy,
}

-- The client of the sender, each command on a session of its own.
abbrev pub over_wire : Codec → (ℕ → Bytes → ℕ) → (ℕ → Bytes → ℕ) → Client Storage
over_wire c grant grant' = record {
  put = λ key bs. call c grant grant' (put_request c key bs) (parse_put c);
  list = λ prefix. call c grant grant' (list_request c prefix) (parse_list c);
}

-- A command that is ASCII comes through as it is.
module _ (c : Codec) (utf8 : IsUtf8 c) (id : Text) (t : IsTransferId id) where
  op_ascii :
      (op arg : Text)
      → all is_ascii op ≡ true
      → all is_ascii arg ≡ true
      → c.decode (command c op arg) ≡ op ++ arg
  op_ascii op arg h k =
      let ascii = all-append is_ascii op arg h k in
      ap c.decode (utf8.encode_ascii (op ++ arg) ascii) ∙ utf8.decode_ascii (op ++ arg) ascii

  op_size :
      (op arg : Text)
      → all is_ascii op ≡ true
      → all is_ascii arg ≡ true
      → length (command c op arg) ≡ length op + length arg
  op_size op arg h k =
      ap length (utf8.encode_ascii (op ++ arg) (all-append is_ascii op arg h k))
      ∙ length-append op arg

  module _ (b : Blob) (small : IsSmall b) where
    name_ascii : all is_ascii (name_of id b) ≡ true
    name_ascii = ap (all is_ascii) (name_of-file_of id b) ∙ own_ascii id t b

    module _ (grant grant' : ℕ → Bytes → ℕ) (fs : Storage) where
      put_blob_over_wire :
          (bs : Bytes)
          → length bs < u64_mod
          → (over_wire c grant grant').put (name_of id b) bs fs
            ≡ (ok tt, (store_blob id (file_of b) bs fs).1)
      put_blob_over_wire bs size =
          put_over_wire c grant grant' (name_of id b) fs id (file_of b) bs
            (safe_path-name_of id b t small) (not_dot b)
            (op_ascii (codes "PUT ") (name_of id b) (unfold all in refl) name_ascii)
            (omega (
              arith,
              op_size (codes "PUT ") (name_of id b) (unfold all in refl) name_ascii,
              key_small id t b small,
            ))
            size

      tidy-Fits : IsTidy fs → Fits (blob (name_of id b) fs)
      unfolding find_blob
      tidy-Fits tidy = rw (safe_path-name_of id b t small) (of (read_file id (file_of b) fs) refl)
        where
          of : (o : Option Bytes) → read_file id (file_of b) fs ≡ o → Fits o
          of none e = tt
          of (some bs) e = (tidy id (file_of b) bs e).size

      -- A GET of a blob of the transfer.
      pub get_blob_over_wire :
          IsTidy fs
          → call c grant grant' (get_request c (name_of id b)) (parse_get c) fs
            ≡ (ok (blob (name_of id b) fs), fs)
      get_blob_over_wire tidy =
          get_over_wire c grant grant' (name_of id b) fs
            (op_ascii (codes "GET ") (name_of id b) (unfold all in refl) name_ascii)
            (omega (
              arith,
              op_size (codes "GET ") (name_of id b) (unfold all in refl) name_ascii,
              key_small id t b small,
            ))
            (tidy-Fits tidy)

  module _ (grant grant' : ℕ → Bytes → ℕ) where
    -- The broker, reached by the client over the wire, keeps the blobs of a transfer as the sender's
    -- client promises: a blob that is put is there and nothing else of the transfer changes.
    pub over_wire-IsStore : IsStore (over_wire c grant grant') blob IsTidy id
    over_wire-IsStore = record {
      stored = λ b bs fs small size tidy.
          ap (λ o. o.0) (put_blob_over_wire b small grant grant' fs bs size);
      kept_good = λ b bs fs small size tidy.
          rw (put_blob_over_wire b small grant grant' fs bs size)
            (store_blob-IsTidy id t b bs fs size tidy);
      found = λ b b' bs fs small small' size tidy.
          rw (put_blob_over_wire b small grant grant' fs bs size) (
            (store_blob-Stores (name_of id b) id (file_of b) (safe_path-name_of id b t small) bs fs
                (not_dot b)).1
              (name_of id b')
            ∙ ap
                (λ x.
                  if name_of id b =ₜ name_of id b'
                  then some bs
                  else if x
                  then none
                  else blob (name_of id b') fs)
                (name_of_tmp id b b'));
    }

    -- A blob of a transfer that the client puts, on a session of its own, is what a GET on a later
    -- session gives; a GET of any other blob of the transfer gives what it gave before. The storage is
    -- tidy before, and after.
    pub get-put_over_wire :
        (b b' : Blob) (bs : Bytes) (fs : Storage)
        → IsSmall b
        → IsSmall b'
        → length bs < u64_mod
        → IsTidy fs
        → let after = ((over_wire c grant grant').put (name_of id b) bs fs).1 in
          let get = call c grant grant' (get_request c (name_of id b')) (parse_get c) in
          (((over_wire c grant grant').put (name_of id b) bs fs).0 ≡ ok tt)
          × IsTidy after
          × (get after ≡ (
              if name_of id b =ₜ name_of id b' then (ok (some bs), after) else ((get fs).0, after)))
    get-put_over_wire b b' bs fs small small' size tidy =
        let store = over_wire-IsStore in
        let after = ((over_wire c grant grant').put (name_of id b) bs fs).1 in
        let tidy' = store.kept_good b bs fs small size tidy in
        (
          store.stored b bs fs small size tidy,
          tidy',
          get_blob_over_wire b' small' grant grant' after tidy'
              ∙ ap (λ o. (ok o, after)) (store.found b b' bs fs small small' size tidy)
              ∙ split (name_of id b =ₜ name_of id b') bs after (blob (name_of id b') fs) _
                  (get_blob_over_wire b' small' grant grant' fs tidy),
        )
      where
        split :
            (same : Bool) (bs : Bytes) (after : Storage) (o : Option Bytes)
            (r : Result (Option Bytes) × Storage)
            → r ≡ (ok o, fs)
            → ◌≡◌ {A = Result (Option Bytes) × Storage}
                (ok (if same then some bs else o), after)
                (if same then (ok (some bs), after) else (r.0, after))
        split true bs after o r e = refl
        split false bs after o r e = ap (λ q. (q, after)) (sym (ap (λ q. q.0) e))

  -- A key that is listed is stored.
  module _ (fs : Storage) (tidy : IsTidy fs) (prefix : Text) where
    entry_ascii : Every (λ k. all is_ascii k ≡ true) (list_keys prefix fs)
    entry_ascii =
        Every-weaken
          (λ k (e : Entry prefix fs k).
            ap (all is_ascii) e.joined ∙ (tidy e.namespace e.name e.bs e.stored).key_ascii)
          (list_keys_sound prefix fs)

    entry-IsLine : Every IsLine (list_keys prefix fs)
    entry-IsLine =
        Every-weaken
          (λ k (e : Entry prefix fs k). record {
            not_empty =
                omega (arith, ap length e.joined, length-append {0} e.namespace (b'/' ∷ e.name));
            one_line =
                ap (avoids b'\n') e.joined ∙ (tidy e.namespace e.name e.bs e.stored).key_line;
          })
          (list_keys_sound prefix fs)

  listed_blob :
      (fs : Storage) (prefix : Text) (b : Blob)
      → IsTidy fs
      → IsSmall b
      → Entry prefix fs (name_of id b)
      → (bs : Bytes) × (blob (name_of id b) fs ≡ some bs)
  listed_blob fs prefix b tidy small e =
      let flat = (tidy e.namespace e.name e.bs e.stored).ns_flat in
      let same : ((id ++ b'/' ∷ file_of b) =ₜ (e.namespace ++ b'/' ∷ e.name)) ≡ true =
        (text_eq_iff _ _).1 (sym (name_of-file_of id b) ∙ e.joined) in
      let parts = key_eq id e.namespace (file_of b) e.name (namespace_avoids id t.id_chars) flat in
      let eqs : (id ≡ e.namespace) × (file_of b ≡ e.name) =
        ground (arith, parts, same, text_eq_iff id e.namespace, text_eq_iff (file_of b) e.name) in
      (e.bs, unfold find_blob in (rw (safe_path-name_of id b t small) (rw (eqs.0, eqs.1) e.stored)))

  -- A LIST succeeds with what is stored, if the reply can be framed.
  pub over_wire-IsListed :
      (grant grant' : ℕ → Bytes → ℕ) (fs : Storage)
      → IsTidy fs
      → length (join_lines (list_keys (id ++ codes "/") fs)) < u64_mod
      → IsListed (over_wire c grant grant') blob id fs
  over_wire-IsListed grant grant' fs tidy size =
      let prefix = id ++ codes "/" in
      let body = join_lines (list_keys prefix fs) in
      let body_ascii : all is_ascii body ≡ true =
        all-join_lines is_ascii (list_keys prefix fs) refl (entry_ascii fs tidy prefix) in
      let encoded = utf8.encode_ascii body body_ascii in
      let prefix_ascii : all is_ascii prefix ≡ true =
        all-append is_ascii id (codes "/")
          (all_weaken is_namespace_char is_ascii id (λ x h. ground arith) t.id_chars)
          (unfold all in refl) in
      let id_short : length id ≤ 128 = ground (arith, t.id_size) in
      let prefix_size = length-append id (codes "/") in
      record {
        names = list_keys prefix fs;
        answered =
            list_over_wire c grant grant' prefix fs
              (op_ascii (codes "LIST ") prefix (unfold all in refl) prefix_ascii)
              (omega (arith, op_size (codes "LIST ") prefix (unfold all in refl) prefix_ascii))
              (omega (arith, ap length encoded))
            ∙ ap (λ l. (ok l, fs))
                (ap lines (ap c.decode encoded ∙ utf8.decode_ascii body body_ascii)
                  ∙ lines-join_lines (list_keys prefix fs) (entry-IsLine fs tidy prefix));
        listed_there = λ b small old. listed_blob fs prefix b tidy small (
            Every-contains_text (list_keys prefix fs) (name_of id b) (list_keys_sound prefix fs)
              old);
      }
