-- ===== src/Scheduler.antt =====
-- firmware/emsa5/scheduler.c and scheduler.h: the task table, the queue and the functions that
-- change them. The main loop is in `Scheduler.Run`, as steps that the timer interrupt may separate,
-- and its body behind `#else` in `Scheduler.Alternative`.
pub mod Slots
pub mod Run
pub mod Safety
pub mod Visible
pub mod Stop
pub mod Lost
pub mod Called
pub mod Released
pub mod Alternative
use trace_fs.Base.{
  ℕ, zero, suc, ◌+◌, ◌*◌, ◌%◌, ◌^◌, List, [], ◌∷◌, Option, none, some, get_elem?, set, replicate,
  u32, ◌==◌, if◌then◌else◌,
}
use trace_fs.Hal.Bus.{Bus}
use trace_fs.Hal.Timer.{timer_0, timer_configure_periodic_timer, timer_disable_timer}

-- The functions that the table points to.
pub data Entry : Type 0 where
  task_5ms task_10ms task_100ms task_1000ms : Entry

pub record Task : Type 0 where
  pub id : ℕ
  pub entry : Entry
  pub period : ℕ
  pub priority : ℕ

abbrev pub num_tasks : ℕ
num_tasks = 4

abbrev pub slowdown : ℕ
slowdown = 25

abbrev pub one_millisecond : ℕ
one_millisecond = 1000

abbrev pub tasks : List Task
tasks =
    record { id = 1; entry = task_5ms; period = 5; priority = 0 }
    ∷ record { id = 2; entry = task_10ms; period = 10; priority = 1 }
    ∷ record { id = 3; entry = task_100ms; period = 100; priority = 2 }
    ∷ record { id = 4; entry = task_1000ms; period = 1000; priority = 3 }
    ∷ []

-- A slot is a null pointer or a pointer into the table, which is constant: the task itself.
abbrev pub Queue : Type 0
Queue = List (Option Task)

pub record Scheduler : Type 0 where
  pub queue : Queue
  pub enabled : ℕ
  pub ticks : ℕ

unfoldable pub scheduler_enable : Scheduler → Scheduler
scheduler_enable s = record s { enabled = 1 }

-- One round of the loop of `scheduler_next`, on the entry of the table.
abbrev pub release_task : ℕ → ℕ → Option Task → Queue → Queue
release_task time_in_ms i none q = q
release_task time_in_ms i (some t) q = if time_in_ms % t.period == 0 then set q i (some t) else q

unfoldable pub release : ℕ → ℕ → Queue → Queue
release time_in_ms i q = release_task time_in_ms i (get_elem? tasks i) q

-- The loop at index i, with `left` rounds to go.
unfoldable pub release_from : ℕ → ℕ → ℕ → Queue → Queue
release_from time_in_ms zero i q = q
release_from time_in_ms (suc left) i q =
    release_from time_in_ms left (i + 1) (release time_in_ms i q)

unfoldable pub scheduler_next : Scheduler → Scheduler
scheduler_next s =
    let time_in_ms = u32 (s.ticks + 1) in
    record s { ticks = time_in_ms; queue = release_from time_in_ms num_tasks 0 s.queue }

module _ (bus : Bus) where
  open bus use {Device}

  -- The loop writes every slot of the queue, whatever it held.
  unfoldable pub scheduler_init : Scheduler → Device → Scheduler × Device
  unfolding scheduler_enable
  scheduler_init s d =
      let s = record s { ticks = 0; queue = replicate num_tasks none } in
      let d = timer_configure_periodic_timer bus timer_0 (slowdown * one_millisecond) d in
      (scheduler_enable s, d)

  unfoldable pub scheduler_disable : Scheduler → Device → Scheduler × Device
  scheduler_disable s d = (record s { enabled = 0 }, timer_disable_timer bus timer_0 d)
