-- ===== src/Tests/Blobs.antt =====
-- The broker and the envelope's byte strings, at concrete inputs.
use cmpe272_finaltest_assesm.Prelude.{
  ℕ, ◌≡◌, refl, [], ◌∷◌, ◌++◌, none, some, arith, ◌=ₜ◌, if◌then◌else◌, length,
}
use cmpe272_finaltest_assesm.Result.{ok, err, value_error}
use cmpe272_finaltest_assesm.Bytes.{Bytes, Text}
use cmpe272_finaltest_assesm.Socket.{Socket, closed}
use cmpe272_finaltest_assesm.Socket.Frame.{frame}
use cmpe272_finaltest_assesm.Text.{codes, split1}
use cmpe272_finaltest_assesm.Envelope.{chunk_nonce}
use cmpe272_finaltest_assesm.Envelope.Nonces.{chunk_nonce_injective, chunk_aad_injective}
use cmpe272_finaltest_assesm.Dict.{lookup}
use cmpe272_finaltest_assesm.Broker.Key.{span, key_re_match, has_dotdot, safe_path}
use cmpe272_finaltest_assesm.Broker.Storage.{Storage, read_file, store_blob}
use cmpe272_finaltest_assesm.Broker.Command.{Codec, Broker, handle_put, handle_get, find_blob}
use cmpe272_finaltest_assesm.Broker.Confined.{IsConfined, safe_path-IsConfined}
use cmpe272_finaltest_assesm.Broker.Blobs.{blob, Stores, store_blob-Stores}
use cmpe272_finaltest_assesm.Broker.Replies.{get_frames, get-put}

abbrev ns : Text
ns = codes "00ff"

abbrev name : Text
name = codes "manifest"

abbrev key : Text
key = codes "00ff/manifest"

key_legal : safe_path key ≡ ok (ns, name)
unfolding safe_path key_re_match has_dotdot span split1
key_legal = refl

-- The regular expression lets a newline through at the end, and a name that is one dot.
newline_legal : safe_path (codes "a/b\n") ≡ ok (codes "a", codes "b\n")
unfolding safe_path key_re_match has_dotdot span split1
newline_legal = refl

dot_legal : safe_path (codes "a/.") ≡ ok (codes "a", codes ".")
unfolding safe_path key_re_match has_dotdot span split1
dot_legal = refl

parent_illegal : safe_path (codes "../etc") ≡ err value_error
unfolding safe_path key_re_match has_dotdot span split1
parent_illegal = refl

safe_path-IsConfined_example : IsConfined key ns name
safe_path-IsConfined_example = safe_path-IsConfined key ns name key_legal

abbrev payload : Bytes
payload = 1 ∷ 2 ∷ 3 ∷ []

-- A storage with one other blob.
abbrev stored : Storage
stored = (codes "aa", (codes "chunk", 9 ∷ []) ∷ []) ∷ []

store_blob-Stores_example :
    ((store_blob ns name payload stored).0 ≡ ok tt)
    × Stores key payload stored (store_blob ns name payload stored).1
store_blob-Stores_example = store_blob-Stores key ns name key_legal payload stored refl

-- A codec for texts below 128.
abbrev ascii : Codec
ascii = record { decode = λ bs. bs; encode = λ t. t; repr = λ t. b'\'' ∷ (t ++ b'\'' ∷ []) }

abbrev conn : Socket
conn = record {
  pending = frame payload ++ [];
  grant = λ n p. 5;
  ending = closed;
  sent = [];
  room = none;
}

abbrev broker : Broker
broker = record { storage = stored; put_count = 0; fail_after_puts = 0; conn = conn }

get-put_example :
    let b' = (handle_put ascii key broker).1 in
    let expected =
      if key =ₜ key
      then some payload
      else if (key ++ codes ".tmp") =ₜ key
      then none
      else blob key broker.storage in
    ((handle_put ascii key broker).0 ≡ ok tt)
    × (b'.conn.sent ≡ broker.conn.sent ++ frame (codes "OK"))
    × (b'.conn.pending ≡ [])
    × (handle_get key b' ≡ (
      ok tt,
      record b' { conn = record b'.conn { sent = b'.conn.sent ++ get_frames expected } },
    ))
unfolding safe_path key_re_match has_dotdot span split1 find_blob read_file lookup
get-put_example =
    get-put ascii key ns name key_legal payload [] broker key refl (omega arith) refl refl refl tt

illegal_put : safe_path (codes "nokey") ≡ err value_error
unfolding safe_path key_re_match has_dotdot span split1
illegal_put = refl

chunk_nonce_injective_example :
    ((bs : Bytes) × (chunk_nonce 3 ≡ ok bs) × (length bs ≡ 12))
    × (chunk_nonce 3 ≡ chunk_nonce 3 → ◌≡◌ {A = ℕ} 3 3)
chunk_nonce_injective_example = chunk_nonce_injective 3 3 (omega arith) (omega arith)

chunk_aad_injective_example : (payload ≡ payload) × ◌≡◌ {A = ℕ} 1 1 × ◌≡◌ {A = ℕ} 4 4
chunk_aad_injective_example =
    chunk_aad_injective payload payload 1 1 4 4 refl (omega arith) (omega arith) (omega arith)
      (omega arith) refl
