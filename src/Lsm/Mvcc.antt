-- ===== src/Lsm/Mvcc.antt =====
-- crates/lsm/src/mvcc.rs: the global counter NEXT_SEQ, passed explicitly, and the snapshots. Each
-- function is one atomic operation on the counter.
use exepense_db.Base.{ℕ, ◌+◌, ◌-◌, ◌%◌, ◌<◌, ◌≤◌, List, [], ◌∷◌, max, arith}
use exepense_db.Base.Words.{u64_mod}

-- The initial value of NEXT_SEQ.
abbrev pub first_seq : ℕ
first_seq = 1

-- `load().saturating_sub(1).max(1)`
unfoldable pub begin_read : ℕ → ℕ
begin_read next_seq = max (next_seq - 1) 1

-- `fetch_add(1)`: the number handed out, and the counter after it.
unfoldable pub next_write_seq : ℕ → ℕ × ℕ
next_write_seq next_seq = (next_seq, (next_seq + 1) % u64_mod)

-- `fetch_max(min_next)`
unfoldable pub bump_next_seq_to : ℕ → ℕ → ℕ
bump_next_seq_to next_seq min_next = max next_seq min_next

-- The active snapshots are an ordered set.
unfoldable pub oldest_active_snapshot : List ℕ → ℕ
oldest_active_snapshot [] = u64_mod - 1
oldest_active_snapshot (s ∷ rest) = s

-- A write is visible to every read that begins after it, until the counter wraps.
pub next_write_seq-le-begin_read :
    (n : ℕ) → n + 1 < u64_mod → (next_write_seq n).0 ≤ begin_read (next_write_seq n).1
unfolding next_write_seq begin_read
next_write_seq-le-begin_read n h = omega arith
