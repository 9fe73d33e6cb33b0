-- ===== src/Worker/Health.antt =====
-- The health report of `dispatch_request`. `snprintf` is given 512 bytes, its terminator included.
use dawnshell.Prelude.{
  ℕ, ◌+◌, ◌-◌, ◌/◌, ◌%◌, ◌^◌, ◌≤◌, ◌<◌, ◌≡◌, ◌++◌, List, Option, none, some, codes, decimal, length,
  length-append, length-decimal-HasDigits, leb, ◌!=◌, if◌then◌else◌, arith,
}
use dawnshell.Worker.Table.{WorkerState, WorkerSession}

-- What the format prints, in its order.
pub record Report : Type 0 where
  pub pid : ℕ
  pub uptime_ms : ℕ
  pub active : ℕ
  pub requests : ℕ
  pub errors : ℕ

module _ {S : Type 0} where
  live : WorkerSession S → ℕ
  live v = if v.id != 0 then 1 else 0

  unfoldable pub active_sessions : WorkerState S → ℕ
  unfolding live
  active_sessions s = live s.slot0 + live s.slot1

-- `(now - started) / 1000000` on `uint64_t`.
unfoldable pub uptime_ms : ℕ → ℕ → ℕ
uptime_ms now started = (now + 2 ^ 64 - started) % 2 ^ 64 / 1000000

unfoldable pub format_health : Report → List ℕ
format_health r =
    codes
      "{\"protocol\":1,\"worker_state\":\"ready\",\"transport\":\"inherited_memfd_eventfd\",\"pid\":"
    ++ (decimal r.pid
        ++ (codes ",\"uptime_ms\":"
            ++ (decimal r.uptime_ms
                ++ (codes ",\"active_sessions\":"
                    ++ (decimal r.active
                        ++ (codes ",\"requests\":"
                            ++ (decimal r.requests
                                ++ (codes ",\"request_errors\":"
                                    ++ (decimal r.errors
                                        ++ codes
                                            ",\"public_listener\":false,\"software_fallback\":false}")))))))))

unfoldable pub health_text : Report → Option (List ℕ)
health_text r = if leb 512 (length (format_health r)) then none else some (format_health r)

-- The ranges of the C types, and what the code computes for two of the numbers.
pub record IsInRange (r : Report) : Type 0 where
  pub pid : r.pid < 2 ^ 31
  pub uptime_ms : r.uptime_ms ≤ 2 ^ 64 / 1000000
  pub active : r.active ≤ 2
  pub requests : r.requests < 2 ^ 64
  pub errors : r.errors < 2 ^ 64

pub length-format_health : (r : Report) → IsInRange r → length (format_health r) < 512
unfolding format_health
length-format_health r h = simp length-append (
    omega (
      arith,
      length-decimal-HasDigits 9 r.pid (omega (arith, h.pid)),
      length-decimal-HasDigits 13 r.uptime_ms (omega (arith, h.uptime_ms)),
      length-decimal-HasDigits 0 r.active (omega (arith, h.active)),
      length-decimal-HasDigits 19 r.requests (omega (arith, h.requests)),
      length-decimal-HasDigits 19 r.errors (omega (arith, h.errors)),
    ))

pub health_text_total : (r : Report) → IsInRange r → health_text r ≡ some (format_health r)
unfolding health_text
health_text_total r h = ground (arith, length-format_health r h)

pub uptime_ms-le : (now started : ℕ) → uptime_ms now started ≤ 2 ^ 64 / 1000000
unfolding uptime_ms
uptime_ms-le now started = omega arith

pub active_sessions-le : {S : Type 0} (s : WorkerState S) → active_sessions s ≤ 2
unfolding active_sessions
active_sessions-le s = ground arith
