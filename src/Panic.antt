-- ===== src/Panic.antt =====
-- `panic` and `panic_assert` of sys/common.c: what stands on the screen when the processor halts.
use fotix.Base.{ℕ, List, codes}
use fotix.Monitor.{Monitor, monitor_write, monitor_write_dec}

unfoldable pub panic : (message file : List ℕ) (line : ℕ) → Monitor → Monitor
panic message file line s =
    let s1 = monitor_write message (monitor_write (codes "PANIC(") s) in
    let s2 = monitor_write file (monitor_write (codes ") at ") s1) in
    let s3 = monitor_write_dec line (monitor_write (codes ":") s2) in
    monitor_write (codes "Computer halting now!\n") (monitor_write (codes "\n") s3)

unfoldable pub panic_assert : (file : List ℕ) (line : ℕ) (desc : List ℕ) → Monitor → Monitor
panic_assert file line desc s =
    let s1 = monitor_write desc (monitor_write (codes "ASSERTION-FAILED(") s) in
    let s2 = monitor_write file (monitor_write (codes ") at ") s1) in
    let s3 = monitor_write_dec line (monitor_write (codes ":") s2) in
    monitor_write (codes "Computer halting now!\n") (monitor_write (codes "\n") s3)
