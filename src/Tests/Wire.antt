-- ===== src/Tests/Wire.antt =====
-- A session identifier in a header.
use dawnshell.Prelude.{◌≡◌, arith, replicate}
use dawnshell.Wire.Bytes.{put_u64, get_u64}
use dawnshell.Wire.Laws.{get_u64-put_u64}

get_u64-put_u64_runs : get_u64 (put_u64 (replicate 32 0) 12 5000000001) 12 ≡ 5000000001
get_u64-put_u64_runs = get_u64-put_u64 (replicate 32 0) 12 5000000001 (omega arith) (omega arith)
