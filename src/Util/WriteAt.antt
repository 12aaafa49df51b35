-- ===== src/Util/WriteAt.antt =====
-- Writing at the end of a file appends; writing in order fills a file from left to right.
use cmpe272_finaltest_assesm.Prelude.{
  ℕ, ◌+◌, ◌-◌, ◌≡◌, ◌++◌, append-nil, arith, length, replicate, take-append_self, drop_all,
}
use cmpe272_finaltest_assesm.Bytes.{Bytes}
use cmpe272_finaltest_assesm.Util.{write_at}

pub write_at-end : (n : ℕ) (bs c : Bytes) → n ≡ length c → write_at n bs c ≡ c ++ bs
unfolding write_at
write_at-end n bs c e = rw (
  take-append_self c (replicate (n - length c) 0) n e,
  drop_all (n + length bs) c (omega arith),
  append-nil,
)
