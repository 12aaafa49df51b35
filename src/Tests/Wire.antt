-- ===== src/Tests/Wire.antt =====
-- One transfer from the broker's sender over the broker to its receiver, after a run of the sender that
-- was interrupted behind its only chunk; strings are bytes, and every block is three bytes long.
use cmpe272_finaltest_assesm.Prelude.{
  ℕ, zero, suc, ◌≡◌, ◌≢◌, ◌↔◌, refl, sym, ◌∙◌, ◌<◌, [], ◌∷◌, none, some, arith, ◌=ₜ◌, text_eq_iff,
  if◌then◌else◌, true,
}
use cmpe272_finaltest_assesm.Result.{ok}
use cmpe272_finaltest_assesm.Bytes.{Bytes, Text, from_hex}
use cmpe272_finaltest_assesm.Text.{codes, starts_with, ends_with}
use cmpe272_finaltest_assesm.Dict.{lookup}
use cmpe272_finaltest_assesm.Envelope.{derive_chunk_key}
use cmpe272_finaltest_assesm.Socket.{closed}
use cmpe272_finaltest_assesm.Receiver.State.{Setting, contains_text}
use cmpe272_finaltest_assesm.Sender.Count.{chunk_count, to_float}
use cmpe272_finaltest_assesm.Sender.State.{load_or_create_state, saved}
use cmpe272_finaltest_assesm.Sender.Sealing.{sender_key}
use cmpe272_finaltest_assesm.Sender.Send.{Outbox, send}
use cmpe272_finaltest_assesm.Broker.Key.{has_dotdot, safe_path}
use cmpe272_finaltest_assesm.Broker.Confined.{all, avoids}
use cmpe272_finaltest_assesm.Broker.Storage.{
  Storage, read_file, list_keys, list_namespaces, list_names, sorted, insert_sorted,
}
use cmpe272_finaltest_assesm.Broker.Command.{Codec, Broker, out_of_fuel, serve_client, find_blob}
use cmpe272_finaltest_assesm.Broker.Legal.{safe_path_legal}
use cmpe272_finaltest_assesm.Broker.Listed.{Entry, list_keys_lem}
use cmpe272_finaltest_assesm.Broker.Termination.{serve_client-ends}
use cmpe272_finaltest_assesm.Broker.Blobs.{blob}
use cmpe272_finaltest_assesm.Client.{get_request, parse_get}
use cmpe272_finaltest_assesm.Transfer.Names.{manifest, chunk, name_of}
use cmpe272_finaltest_assesm.Transfer.Keys.{IsTransferId, file_of, safe_path-name_of}
use cmpe272_finaltest_assesm.Transfer.Upload.{sent_bytes}
use cmpe272_finaltest_assesm.Transfer.Store.{sealed}
use cmpe272_finaltest_assesm.Session.{call}
use cmpe272_finaltest_assesm.Session.Honest.{over_wire, get-put_over_wire}
use cmpe272_finaltest_assesm.Session.Tidy.{IsUtf8, IsTidy}
use cmpe272_finaltest_assesm.Session.EndToEnd.{asking, Ready}
use cmpe272_finaltest_assesm.Tests.Inbox.{toy, id, plain}
use cmpe272_finaltest_assesm.Tests.Outbox.{sending, state}
use cmpe272_finaltest_assesm.Tests.Through.{tid, key, instructed, serving, chunk_fits, sealed_chunk}

abbrev pub codec : Codec
codec = record { decode = λ bs. bs; encode = λ t. t; repr = λ t. t }

pub codec-IsUtf8 : IsUtf8 codec
codec-IsUtf8 = record { encode_ascii = λ t h. refl; decode_ascii = λ t h. refl }

pub id-IsTransferId : IsTransferId id
unfolding all
id-IsTransferId = record { id_chars = refl; id_size = refl }

abbrev pub three : ℕ → Bytes → ℕ
three n bs = 3

-- What the interrupted run left.
abbrev pub remote : Storage
remote = (codes "00ff", (codes "chunk_00000000", 18 ∷ plain) ∷ []) ∷ []

abbrev pub wire_outbox : Outbox Storage
wire_outbox = record { file = some plain; state_file = saved state; remote = remote }

remote_file :
    (ns name : Text) (bs : Bytes)
    → read_file ns name remote ≡ some bs
    → (codes "00ff" ≡ ns) × (codes "chunk_00000000" ≡ name) × (18 ∷ plain ≡ bs)
unfolding read_file lookup
remote_file ns name bs e =
    ground (arith, text_eq_iff (codes "00ff") ns, text_eq_iff (codes "chunk_00000000") name)

remote-IsTidy : IsTidy remote
unfolding avoids all
remote-IsTidy ns name bs e =
    let (a, b, c) = remote_file ns name bs e in
    rw (← a, ← b, ← c)
      (record { ns_flat = refl; key_ascii = refl; key_line = refl; size = omega arith })

wire_ours :
    (i : ℕ) (bs : Bytes)
    → i < 1
    → blob (name_of id (chunk i)) remote ≡ some bs
    → bs ≡ sealed toy key tid 1 plain i
unfolding find_blob
wire_ours zero bs h e =
    let there : read_file id (file_of (chunk 0)) remote ≡ some bs =
      rw (safe_path-name_of id (chunk 0) id-IsTransferId (omega arith)) at e in
    sym (remote_file id (file_of (chunk 0)) bs there).2 ∙ sym sealed_chunk
wire_ours (suc i) bs h e = absurd (omega arith)

pub wire-Ready :
    Ready codec three three sending serving state plain tid key codec-IsUtf8 id-IsTransferId
      wire_outbox
unfolding chunk_count to_float load_or_create_state from_hex sender_key derive_chunk_key sent_bytes
    list_keys list_namespaces list_names sorted insert_sorted lookup starts_with ends_with
wire-Ready = record {
  there = refl;
  loaded = refl;
  can = record {
    size_fits = omega arith;
    count_fits = omega arith;
    chunks_fit = chunk_fits;
    manifest_fits = omega arith;
    signature_fits = omega arith;
  };
  tidy = remote-IsTidy;
  listable = omega arith;
  id_read = refl;
  derived = refl;
  ours = wire_ours;
}

abbrev wire_setting : Setting
wire_setting =
    asking codec three three (send (over_wire codec three three) instructed wire_outbox).1.remote
      serving

abbrev again : Bytes
again = 18 ∷ plain

get-put_over_wire_example :
    let after = ((over_wire codec three three).put (name_of id manifest) again remote).1 in
    let get = call codec three three (get_request codec (name_of id (chunk 0))) (parse_get codec) in
    (((over_wire codec three three).put (name_of id manifest) again remote).0 ≡ ok tt)
    × IsTidy after
    × (get after ≡ (
        if name_of id manifest =ₜ name_of id (chunk 0)
        then (ok (some again), after)
        else ((get remote).0, after)))
get-put_over_wire_example =
    get-put_over_wire codec codec-IsUtf8 id id-IsTransferId three three manifest (chunk 0) again
      remote tt (omega arith) (omega arith) remote-IsTidy

safe_path_legal_example :
    safe_path (codes "00ff/manifest.sig") ≡ ok (codes "00ff", codes "manifest.sig")
unfolding all has_dotdot
safe_path_legal_example =
    safe_path_legal (codes "00ff") (codes "manifest.sig") refl refl refl refl refl

list_keys_lem_example :
    (contains_text (list_keys (codes "00ff/") remote) (codes "00ff/chunk_00000000") ≡ true)
    ↔ Entry (codes "00ff/") remote (codes "00ff/chunk_00000000")
list_keys_lem_example = list_keys_lem (codes "00ff/") remote (codes "00ff/chunk_00000000")

-- A PUT that breaks off.
abbrev cut_off : Broker
cut_off = record {
  storage = remote;
  put_count = 0;
  fail_after_puts = 0;
  conn = record {
    pending = 0 ∷ 0 ∷ 0 ∷ 0 ∷ 0 ∷ 0 ∷ 0 ∷ 5 ∷ codes "PUT k";
    grant = three;
    ending = closed;
    sent = [];
    room = none;
  };
}

serve_client-ends_example : (serve_client codec 14 cut_off).0 ≢ out_of_fuel
serve_client-ends_example = serve_client-ends codec 14 cut_off (omega arith)
