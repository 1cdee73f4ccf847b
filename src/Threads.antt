-- ===== src/Threads.antt =====
-- sdplane/thread_info.c: the table of the threads that run.
-- The functions that change the table hold its lock, and so are steps of their own. A pointer is a
-- number and NULL is 0; an lcore of -1 is `none`; the name is the bytes of the copy, which strdup
-- serves.
pub mod Slots
mod Tests
use nettlp_dpdk.Prelude.{
  ℕ, zero, suc, ◌+◌, ◌%◌, ◌^◌, Bool, true, false, ◌&&◌, Option, none, some, List, [], ◌∷◌, ltb, leb,
  ◌==◌, if◌then◌else◌, set, take, replicate,
}

-- struct thread_info
pub record Info : Type 0 where
  pub lcore_id : Option ℕ
  pub lthread : ℕ
  pub func : ℕ
  pub name : Option (List ℕ)
  pub arg : ℕ

-- thread_info_size and threads, and of thread_counters the pointers
pub record Registry : Type 0 where
  pub size : ℕ
  pub threads : List Info
  pub counters : List ℕ

-- THREAD_INFO_LIMIT
abbrev pub limit : ℕ
limit = 16

abbrev pub empty_info : Info
empty_info = record { lcore_id = none; lthread = 0; func = 0; name = none; arg = 0 }

-- The loop of thread_register over the slots from `i` on: the first without a function.
pub find_free : List Info → ℕ → Option ℕ
find_free [] i = none
find_free (t ∷ ts) i = if t.func == 0 then some i else find_free ts (i + 1)

-- `some` of the slot and the new size, `none` for -1.
pub choose : Registry → Option (ℕ × ℕ)
choose r = elim (find_free (take r.size r.threads) 0) [
  | some i ↦ some (i, r.size)
  | none ↦ if ltb r.size limit then some (r.size, (r.size + 1) % 2 ^ 8) else none
]

pub register : Info → Registry → Option ℕ × Registry
register info r = elim (choose r) [
  | none ↦ (none, r)
  | some (id, size) ↦ (some id, record r { size = size; threads = set r.threads id info })
]

pub unregister : ℕ → Registry → Registry
unregister id r = record r { threads = set r.threads id empty_info }

-- thread_register_loop_counter, and thread_unregister_loop_counter with the pointer NULL. A negative
-- id gives -1 too.
pub set_counter : ℕ → ℕ → Registry → Registry
set_counter id ptr r = if leb limit id then r else record r { counters = set r.counters id ptr }

-- The loops of the two lookups, with the slot found so far: the last one that matches.
pub find_last : (Info → Bool) → List Info → ℕ → Option ℕ → Option ℕ
find_last test [] i ret = ret
find_last test (t ∷ ts) i ret = find_last test ts (i + 1) (if test t then some i else ret)

pub lookup : ℕ → Registry → Option ℕ
lookup func r = find_last (λ t. t.func == func) (take r.size r.threads) 0 none

is_on : Option ℕ → ℕ → Bool
is_on none lcore = false
is_on (some id) lcore = id == lcore

pub lookup_by_lcore : ℕ → ℕ → Registry → Option ℕ
lookup_by_lcore func lcore r =
    find_last (λ t. t.func == func && is_on t.lcore_id lcore) (take r.size r.threads) 0 none

-- The bytes of a slot are all 0, which gives an lcore_id of 0.
abbrev zeroed_info : Info
zeroed_info = record { lcore_id = some 0; lthread = 0; func = 0; name = none; arg = 0 }

-- thread_info_size, threads and thread_counters as the process starts
pub static : Registry
static = record { size = 0; threads = replicate 16 zeroed_info; counters = replicate 16 0 }

-- thread_info_init
pub init : Registry → Registry
init r = record r { threads = replicate 16 zeroed_info }
