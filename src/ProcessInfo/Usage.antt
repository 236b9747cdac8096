-- ===== src/ProcessInfo/Usage.antt =====
-- `cpuTime` of base/ProcessInfo.cc, over the numbers of type double.
use naive_net.Common.{if◌then◌else◌}
use naive_net.Common.Int.{ℤ, pos, leb_ℤ}

-- What the source uses of double.
pub record Doubles (D : Type 0) : Type 0 where
  pub zero_double : D
  pub of_long : ℤ → D
  pub divide : D → D → D

-- What `times` returns, and the fields of its `struct tms` that are used.
pub record Times : Type 0 where
  pub result : ℤ
  pub tms_utime : ℤ
  pub tms_stime : ℤ

pub record CpuTime (D : Type 0) : Type 0 where
  pub user_seconds : D
  pub system_seconds : D

module _ {D : Type 0} (double : Doubles D) where
  unfoldable pub new_cpu_time : CpuTime D
  new_cpu_time = record { user_seconds = double.zero_double; system_seconds = double.zero_double }

  unfoldable pub cpu_time : ℤ → Times → CpuTime D
  unfolding new_cpu_time
  cpu_time clock_ticks_per_second t =
      let hz = double.of_long clock_ticks_per_second in
      if leb_ℤ (pos 0) t.result
      then (record {
        user_seconds = double.divide (double.of_long t.tms_utime) hz;
        system_seconds = double.divide (double.of_long t.tms_stime) hz;
      })
      else new_cpu_time
