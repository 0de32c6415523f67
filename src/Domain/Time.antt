-- ===== src/Domain/Time.antt =====
-- `LedgerTimestamp`, crates/atelia-core/src/domain.rs. A timestamp is an i64 of milliseconds. It is
-- held here as the distance from i64::MIN, so the order of ℕ is the order of the source:
-- 0 stands for i64::MIN, 2 ^ 63 for the Unix epoch and 2 ^ 64 - 1 for i64::MAX.
use atelia_secretary.Base.{ℕ, ◌-◌, ◌^◌}

abbrev pub LedgerTimestamp : Type 0
LedgerTimestamp = ℕ

abbrev pub i64_max : LedgerTimestamp
i64_max = 2 ^ 64 - 1

abbrev pub u64_max : ℕ
u64_max = 2 ^ 64 - 1
