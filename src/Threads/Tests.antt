-- ===== src/Threads/Tests.antt =====
-- The table of threads with one entry gone.
use nettlp_dpdk.Prelude.{
  ℕ, ◌≤◌, ◌<◌, ◌≡◌, refl, arith, ◌⊎◌, none, some, ◌∷◌, set, take, replicate, get_or,
}
use nettlp_dpdk.Threads.{Info, Registry, limit, empty_info, register, lookup}
use nettlp_dpdk.Threads.Slots.{AllUsed, IsValid, register-slot, lookup-slot}

abbrev rx : Info
rx = record { lcore_id = some 1; lthread = 0; func = 100; name = none; arg = 0 }

abbrev tx : Info
tx = record { lcore_id = some 2; lthread = 0; func = 200; name = none; arg = 0 }

abbrev table : Registry
table = record {
  size = 2;
  threads = empty_info ∷ tx ∷ replicate 14 empty_info;
  counters = replicate 16 0;
}

table-IsValid : IsValid table
table-IsValid = record { slots = refl; within = omega arith }

register-slot_example :
    ((register rx table ≡ (none, table)) × (table.size ≡ limit) × AllUsed (take 2 table.threads))
    ⊎ ((k : ℕ) × (r' : Registry) × (register rx table ≡ (some k, r'))
        × (r'.threads ≡ set table.threads k rx)
        × (k < r'.size)
        × IsValid r'
        × (((k < 2) × ((get_or table.threads k empty_info).func ≡ 0)) ⊎ (k ≡ 2)))
register-slot_example = register-slot rx table table-IsValid

lookup-slot_example :
    (j : ℕ) × (lookup 200 table ≡ some j)
    × (1 ≤ j)
    × (j < 2)
    × ((get_or table.threads j empty_info).func ≡ 200)
lookup-slot_example = lookup-slot table 1 table-IsValid (omega arith)
