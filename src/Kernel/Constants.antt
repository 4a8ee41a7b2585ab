-- ===== src/Kernel/Constants.antt =====
-- The constants of src/include/pinion.h.
use pinion.Base.{ℕ, ◌-◌}

abbrev pub thread_count : ℕ
thread_count = 1024

abbrev pub ts_free : ℕ
ts_free = 0

abbrev pub ts_queued : ℕ
ts_queued = 1

abbrev pub ts_running : ℕ
ts_running = 2

abbrev pub ts_waiting : ℕ
ts_waiting = 3

abbrev pub ts_paused : ℕ
ts_paused = 4

abbrev pub ts_pausedw : ℕ
ts_pausedw = 5

abbrev pub tf_dead : ℕ
tf_dead = 1

abbrev pub tf_user : ℕ
tf_user = 2

abbrev pub te_state : ℕ
te_state = 1

abbrev pub te_exist : ℕ
te_exist = 2

abbrev pub fv_page : ℕ
fv_page = 1

abbrev pub fv_accs : ℕ
fv_accs = 2

abbrev pub ev_count : ℕ
ev_count = 256

abbrev pub ev_vtimer : ℕ → ℕ
ev_vtimer n = 255 - n

-- -1 as an `int` or a `uint32_t`.
abbrev pub minus_one : ℕ
minus_one = 0xFFFF_FFFF
