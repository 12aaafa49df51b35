-- ===== src/Tests/Channel.antt =====
-- The stream helpers and the TLS transfer, at concrete inputs.
use cmpe272_finaltest_assesm.Prelude.{
  ◌≡◌, refl, sym, ap, ◌∙◌, [], ◌∷◌, ◌++◌, Option, none, some, ◌&&◌, ◌==◌, ◌=ₜ◌, leb, arith, inl,
  length, take, replicate, length-replicate, if◌then◌else◌,
}
use cmpe272_finaltest_assesm.Result.{ok}
use cmpe272_finaltest_assesm.Bytes.{Bytes, be, from_be, hex, pack_q, unpack_q, pack_qq, unpack_qq}
use cmpe272_finaltest_assesm.Socket.{
  Socket, closed, recv, sendall, recv_exact, send_frame, recv_frame,
}
use cmpe272_finaltest_assesm.Socket.Exact.{skip, cut, recv_exact_lem}
use cmpe272_finaltest_assesm.Socket.Frame.{frame, recv_frame-send_frame, recv_frame_truncated}
use cmpe272_finaltest_assesm.Util.{sha256_file, write_at}
use cmpe272_finaltest_assesm.Util.Hashing.{prefix, sha256_file_lem}
use cmpe272_finaltest_assesm.Tls.Sender.{accept_offset, send_chunks, stream}
use cmpe272_finaltest_assesm.Tls.Blocks.{hash_blocks}
use cmpe272_finaltest_assesm.Tls.Receiver.{
  World, negotiate, open_part, recv_chunks, transfer, finish, try_transfer, receive, promote,
  remove_part, size_or_zero,
}
use cmpe272_finaltest_assesm.Tls.Wire.{concat, wire}
use cmpe272_finaltest_assesm.Tls.Appended.{after}
use cmpe272_finaltest_assesm.Tls.Start.{kept, begun}
use cmpe272_finaltest_assesm.Tls.Verdict.{verdict}
use cmpe272_finaltest_assesm.Tls.Claim.{receive-sent}
use cmpe272_finaltest_assesm.Tls.EndToEnd.{IsConnected, delivery}
use cmpe272_finaltest_assesm.Tls.Interrupt.{Keeps, SendsRest, Interrupted, interrupted, resumed}
use cmpe272_finaltest_assesm.Tls.Safety.{FailsClosed, fail_closed}

-- A hash function of the right size.
abbrev pub toy_hash : Bytes → Bytes
toy_hash bs = replicate 32 (length bs)

pub toy_size : (bs : Bytes) → length (toy_hash bs) ≡ 32
toy_size bs = length-replicate 32 (length bs)

abbrev pub idle : Socket
idle = record { pending = []; grant = λ n p. 2; ending = closed; sent = []; room = none }

abbrev five : Socket
five = record idle { pending = 1 ∷ 2 ∷ 3 ∷ 4 ∷ 5 ∷ [] }

recv_exact_lem_example : recv_exact 3 five ≡ (
    if leb 3 (length five.pending)
    then (ok (take 3 five.pending), skip 3 five)
    else (cut five.ending, record five { pending = [] }))
recv_exact_lem_example = recv_exact_lem 3 five

recv_exact_run : recv_exact 3 five ≡ (ok (1 ∷ 2 ∷ 3 ∷ []), record five { pending = 4 ∷ 5 ∷ [] })
unfolding recv_exact
recv_exact_run = recv_exact_lem 3 five

abbrev pub word : Bytes
word = 7 ∷ 8 ∷ []

recv_frame-send_frame_example :
    let b = record idle { pending = (send_frame word idle).1.sent ++ 9 ∷ [] } in
    ((send_frame word idle).0 ≡ ok tt) × (recv_frame b ≡ (ok word, record b { pending = 9 ∷ [] }))
recv_frame-send_frame_example =
    recv_frame-send_frame word (9 ∷ []) idle
      (record idle { pending = (send_frame word idle).1.sent ++ 9 ∷ [] }) (omega arith) refl refl
      refl

recv_frame_truncated_example :
    let b = record idle { pending = take 9 (send_frame word idle).1.sent } in
    recv_frame b ≡ (cut b.ending, record b { pending = [] })
unfolding send_frame sendall pack_q be
recv_frame_truncated_example =
    recv_frame_truncated 9 word idle
      (record idle { pending = take 9 (send_frame word idle).1.sent }) (omega arith) refl refl
      (omega arith) refl

sha256_file_lem_example :
    sha256_file toy_hash (1 ∷ 2 ∷ 3 ∷ []) (some 2)
    ≡ ok (hex (toy_hash (prefix (some 2) (1 ∷ 2 ∷ 3 ∷ []))))
sha256_file_lem_example = sha256_file_lem toy_hash (1 ∷ 2 ∷ 3 ∷ []) (some 2)

-- A partial file of one byte of a file of three.
abbrev pub file : Bytes
file = 1 ∷ 2 ∷ 3 ∷ []

abbrev pub sender : Socket
sender = record idle { pending = frame (be 8 1) }

abbrev fresh_sender : Socket
fresh_sender = record idle { pending = frame (be 8 0) }

abbrev world : Option Bytes → Bytes → World
world part incoming = record { tls = record idle { pending = incoming }; part = part; out = none }

abbrev pub resuming : World
resuming = world (some (1 ∷ [])) (stream toy_hash file sender).1.sent

pub resuming-IsConnected : IsConnected toy_hash file resuming sender
resuming-IsConnected = record {
  file_fits = omega arith;
  part_fits = omega arith;
  receiver_holds = refl;
  sender_holds = refl;
  unclaimed = refl;
  claimed = sym (receive-sent toy_hash resuming refl (omega arith));
  unsent = refl;
}

delivery_example :
    ((stream toy_hash file sender).0 ≡ ok 0)
    × ((receive toy_hash resuming).0 ≡ ok 0)
    × ((receive toy_hash resuming).1.out ≡ some file)
    × ((receive toy_hash resuming).1.part ≡ none)
delivery_example =
    delivery toy_hash file toy_size resuming sender resuming-IsConnected (inl (2 ∷ 3 ∷ [], refl))
      refl

fail_closed_example : FailsClosed toy_hash resuming (receive toy_hash resuming)
fail_closed_example = fail_closed toy_hash resuming

-- The whole exchange, evaluated.
sent_all : length (stream toy_hash file sender).1.sent ≡ 74
unfolding stream recv_frame recv_exact recv send_frame sendall pack_q unpack_q pack_qq be from_be
    accept_offset hash_blocks send_chunks
sent_all = refl

received_all : (receive toy_hash resuming).1.out ≡ some file
unfolding receive negotiate open_part try_transfer transfer recv_chunks finish write_at stream
    recv_frame recv_exact recv send_frame sendall pack_q unpack_q pack_qq unpack_qq be from_be
    accept_offset hash_blocks send_chunks
received_all = refl

-- Cut off after 30 bytes, inside the first chunk's frame.
abbrev broken_off : World
broken_off = world (some (1 ∷ [])) (take 30 (stream toy_hash file sender).1.sent)

broken_off-IsConnected : IsConnected toy_hash file broken_off sender
broken_off-IsConnected = record {
  file_fits = omega arith;
  part_fits = omega arith;
  receiver_holds = refl;
  sender_holds = refl;
  unclaimed = refl;
  claimed = sym (receive-sent toy_hash broken_off refl (omega arith));
  unsent = refl;
}

interrupted_example : Interrupted toy_hash file 30 broken_off (receive toy_hash broken_off)
interrupted_example =
    interrupted toy_hash file toy_size 30 broken_off sender broken_off-IsConnected
      (inl (2 ∷ 3 ∷ [], refl)) (omega (arith, sent_all)) refl

part_left : (receive toy_hash broken_off).1.part ≡ some (1 ∷ [])
unfolding receive negotiate open_part try_transfer transfer recv_chunks finish write_at stream
    recv_frame recv_exact recv send_frame sendall pack_q unpack_q pack_qq unpack_qq be from_be
    accept_offset hash_blocks send_chunks
part_left = refl

abbrev reconnected : Socket
reconnected = record idle { pending = (stream toy_hash file sender).1.sent }

reconnected-IsConnected :
    IsConnected toy_hash file (record (receive toy_hash broken_off).1 { tls = reconnected }) sender
reconnected-IsConnected = record {
  file_fits = omega arith;
  part_fits = rw part_left (omega arith);
  receiver_holds = refl;
  sender_holds = refl;
  unclaimed = refl;
  claimed =
      let again : World = record (receive toy_hash broken_off).1 { tls = reconnected } in
      sym (
        receive-sent toy_hash again refl (rw part_left (omega arith))
        ∙ ap (λ (f : Option Bytes). frame (be 8 (size_or_zero f))) part_left);
  unsent = refl;
}

resumed_example :
    let again = record (receive toy_hash broken_off).1 { tls = reconnected } in
    Keeps toy_hash file 30 broken_off again.part
    × SendsRest toy_hash file again.part (stream toy_hash file sender).1.sent
    × ((receive toy_hash again).0 ≡ ok 0)
    × ((receive toy_hash again).1.out ≡ some file)
    × ((receive toy_hash again).1.part ≡ none)
resumed_example =
    resumed toy_hash file toy_size 30 broken_off sender reconnected sender broken_off-IsConnected
      (inl (2 ∷ 3 ∷ [], refl)) (omega (arith, sent_all)) refl reconnected-IsConnected refl

-- A header that announces three bytes, and a chunk of two.
abbrev short : World
short =
    world none
      (frame (be 8 3 ++ be 8 0) ++ (wire ((1 ∷ 2 ∷ []) ∷ []) ++ (frame [] ++ replicate 32 2)))

verdict_example :
    let c = kept 0 none ++ concat ((1 ∷ 2 ∷ []) ∷ []) in
    let w' = after (begun short [] c) [] c in
    receive toy_hash short ≡ (
      if length c == 3 && toy_hash c =ₜ replicate 32 2
      then (ok 0, promote w')
      else (ok 1, remove_part w'))
verdict_example =
    verdict toy_hash 3 0 ((1 ∷ 2 ∷ []) ∷ []) (replicate 32 2) short (omega arith) (omega arith)
      (omega arith) refl (omega arith, omega arith, tt) refl refl
