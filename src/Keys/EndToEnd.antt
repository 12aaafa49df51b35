-- ===== src/Keys/EndToEnd.antt =====
-- From gen_keys.py to the file at the receiver.
use cmpe272_finaltest_assesm.Prelude.{◌≡◌}
use cmpe272_finaltest_assesm.Result.{Result}
use cmpe272_finaltest_assesm.Bytes.{Bytes}
use cmpe272_finaltest_assesm.Envelope.Pem.{Pem}
use cmpe272_finaltest_assesm.Directory.{Directory, read}
use cmpe272_finaltest_assesm.Broker.Storage.{Storage}
use cmpe272_finaltest_assesm.Keys.{receiver_private, receiver_public, sender_private, sender_public}

-- The files that a side needs were copied from this directory.
abbrev pub IsSenderCopy : Directory → Directory → Type 0
IsSenderCopy dir own =
    (read sender_private own ≡ read sender_private dir)
    × (read receiver_public own ≡ read receiver_public dir)

abbrev pub IsReceiverCopy : Directory → Directory → Type 0
IsReceiverCopy dir own =
    (read receiver_private own ≡ read receiver_private dir)
    × (read sender_public own ≡ read sender_public dir)
