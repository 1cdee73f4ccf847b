-- ===== src/Rib/Tests.antt =====
-- A machine with two ports and three lcores whose qsort inserts, and runs of its manager.
use nettlp_dpdk.Prelude.{
  ℕ, zero, suc, ◌≤◌, ◌<◌, ◌≡◌, ◌≢◌, refl, ◌∙◌, ◌⊎◌, inl, inr, ◌↔◌, Bool, true, false, Option, none,
  some, List, [], ◌∷◌, ◌++◌, arith, if◌then◌else◌, length, replicate, get_or, Run, done, abort,
}
use nettlp_dpdk.Rib.{
  accept, count_rxqs, apply, max_lcore_of, configure_ports, configure_port, rx_setups, tx_setups,
  mark, make_rings, PortQueue, LcoreQconf, Info, Order, less, equal, greater, port_qconf_compare,
  Env, DevCall, Manager, polled, collect_queues, check_queues, check, max_port_qconf, max_rx_queue,
  rxqs,
}
use nettlp_dpdk.Rib.Messages.{
  Message, qconf, port_status, txrx_desc, no_queue, idle, zero_info, set_qconf, process_message,
  rib_manager, publish_checked, set_desc, update_port_status, refresh_ports, create, replace,
  copy_lcores, copy_lcore, copy_queues,
}
use nettlp_dpdk.Rib.Sorting.{copies, AllAfter, Sorted, SortsRight}
use nettlp_dpdk.Rib.Contiguous.{IsContiguous, check_queues-accepts}
use nettlp_dpdk.Rib.Setup.{setups, check-serves}
use nettlp_dpdk.Rib.Reach.{HasRings, rib_manager_sound}
use nettlp_dpdk.Rib.Refuse.{move-refused}
use nettlp_dpdk.Rib.Moves.{set_thread}
use nettlp_dpdk.Rib.Moves.Purged.{IsLcore}
use nettlp_dpdk.Rib.Moves.Moved.{IsTable, set_thread-moves}

is_greater : Order → Bool
is_greater greater = true
is_greater less = false
is_greater equal = false

insert_queue : (PortQueue → PortQueue → Order) → PortQueue → List PortQueue → List PortQueue
insert_queue cmp x [] = x ∷ []
insert_queue cmp x (y ∷ ys) =
    let rest = insert_queue cmp x ys in if is_greater (cmp x y) then y ∷ rest else x ∷ y ∷ ys

insertion_sort : (PortQueue → PortQueue → Order) → List PortQueue → List PortQueue
insertion_sort cmp [] = []
insertion_sort cmp (x ∷ xs) = insert_queue cmp x (insertion_sort cmp xs)

greater_cases :
    (x y : PortQueue)
    → ((is_greater (port_qconf_compare x y) ≡ true) × (port_qconf_compare y x ≢ greater))
      ⊎ ((is_greater (port_qconf_compare x y) ≡ false) × (port_qconf_compare x y ≢ greater))
unfolding port_qconf_compare is_greater
greater_cases x y = ground arith

compare_trans :
    (x y z : PortQueue)
    → port_qconf_compare x y ≢ greater
    → port_qconf_compare y z ≢ greater
    → port_qconf_compare x z ≢ greater
unfolding port_qconf_compare
compare_trans x y z h k e = ground arith

insert_queue-copies :
    (p q : ℕ) (x : PortQueue) (ys : List PortQueue)
    → copies p q (insert_queue port_qconf_compare x ys) ≡ copies p q (x ∷ ys)
unfolding insert_queue
insert_queue-copies p q x [] = refl
insert_queue-copies p q x (y ∷ ys) = elim (greater_cases x y) [
  | inl (gt, h) ↦ rw gt (omega (arith, insert_queue-copies p q x ys))
  | inr (le, h) ↦ rw le refl
]

insert_queue-AllAfter :
    (z x : PortQueue) (ys : List PortQueue)
    → port_qconf_compare z x ≢ greater
    → AllAfter z ys
    → AllAfter z (insert_queue port_qconf_compare x ys)
unfolding insert_queue
insert_queue-AllAfter z x [] h all = (h, tt)
insert_queue-AllAfter z x (y ∷ ys) h all = elim (greater_cases x y) [
  | inl (gt, k) ↦ rw gt (all.0, insert_queue-AllAfter z x ys h all.1)
  | inr (le, k) ↦ rw le (h, all)
]

AllAfter-trans :
    (x y : PortQueue) (zs : List PortQueue)
    → port_qconf_compare x y ≢ greater
    → AllAfter y zs
    → AllAfter x zs
AllAfter-trans x y [] h all = tt
AllAfter-trans x y (z ∷ zs) h all = (compare_trans x y z h all.0, AllAfter-trans x y zs h all.1)

insert_queue-Sorted :
    (x : PortQueue) (ys : List PortQueue)
    → Sorted ys
    → Sorted (insert_queue port_qconf_compare x ys)
unfolding insert_queue
insert_queue-Sorted x [] s = (tt, tt)
insert_queue-Sorted x (y ∷ ys) s = elim (greater_cases x y) [
  | inl (gt, h) ↦ rw gt (insert_queue-AllAfter y x ys h s.0, insert_queue-Sorted x ys s.1)
  | inr (le, h) ↦ rw le ((h, AllAfter-trans x y ys h s.0), s)
]

abbrev machine : Env
machine = record {
  max_ports = 4;
  max_lcore = 3;
  nb_ports = 2;
  lcore_count = 3;
  dev_info_get = λ i. i;
  link_get = λ i. 1;
  qsort = insertion_sort;
}

insertion_sort-copies :
    (p q : ℕ) (xs : List PortQueue)
    → copies p q (insertion_sort port_qconf_compare xs) ≡ copies p q xs
unfolding insertion_sort
insertion_sort-copies p q [] = refl
insertion_sort-copies p q (x ∷ xs) =
    insert_queue-copies p q x (insertion_sort port_qconf_compare xs)
    ∙ omega (arith, insertion_sort-copies p q xs)

insertion_sort-Sorted : (xs : List PortQueue) → Sorted (insertion_sort port_qconf_compare xs)
unfolding insertion_sort
insertion_sort-Sorted [] = tt
insertion_sort-Sorted (x ∷ xs) =
    insert_queue-Sorted x (insertion_sort port_qconf_compare xs) (insertion_sort-Sorted xs)

machine-SortsRight : SortsRight machine
machine-SortsRight = record { keeps = insertion_sort-copies; sorts = insertion_sort-Sorted }

abbrev queue : ℕ → ℕ → PortQueue
queue p q = record { port_id = p; queue_id = q }

-- Lcore 1 polls queue 1 of port 0, lcore 2 polls queue 0 of both ports.
abbrev two_lcores : List LcoreQconf
two_lcores =
    idle
    ∷ record { nrxq = 1; rx_queue_list = queue 0 1 ∷ replicate 15 no_queue }
    ∷ record { nrxq = 2; rx_queue_list = queue 1 0 ∷ queue 0 0 ∷ replicate 14 no_queue }
    ∷ []

abbrev info : Info
info = record (zero_info machine) { ver = 1; lcore_size = 3; lcore_qconf = two_lcores }

abbrev start : Manager
start = record {
  rib = none;
  replaced = 0;
  tx_buffer = λ p q. false;
  ring_up = λ p q. false;
  ring_dn = λ p q. false;
  calls = [];
}

check_queues-accepts_example :
    ((n : List ℕ) × (check_queues machine info ≡ done (some n))) ↔ IsContiguous 4 (polled info)
check_queues-accepts_example =
    check_queues-accepts machine info machine-SortsRight
      (unfold polled collect_queues in omega arith)

abbrev checked : Run (Option Manager) → Manager
checked (done (some m)) = m
checked (done none) = start
checked abort = start

abbrev ran : Run Manager → Manager
ran (done m) = m
ran abort = start

abbrev published : Manager → Info
published m = elim m.rib [
  | some (some i) ↦ i
  | some none ↦ zero_info machine
  | none ↦ zero_info machine
]

check_accepted : check machine info start ≡ done (some (checked (check machine info start)))
unfolding check accept check_queues polled collect_queues count_rxqs port_qconf_compare
    insertion_sort insert_queue is_greater apply max_lcore_of configure_ports configure_port
    rx_setups tx_setups mark make_rings
check_accepted = refl

check-serves_example :
    let m' = checked (check machine info start) in
    (calls : List DevCall) × (m'.calls ≡ [] ++ calls)
    × ((p q : ℕ) → p < 2 → setups p q calls ≡ copies p q (polled info))
    × ((p q : ℕ)
        → 0 < copies p q (collect_queues two_lcores)
        → (m'.ring_up p q ≡ true) × (m'.ring_dn p q ≡ true))
    × (m'.rib ≡ none)
    × (m'.replaced ≡ 0)
check-serves_example =
    check-serves machine info start (checked (check machine info start)) machine-SortsRight
      check_accepted

abbrev messages : List (Bool × Message)
messages = (true, port_status) ∷ (true, qconf two_lcores) ∷ (false, txrx_desc 1 512 256) ∷ []

messages_handled :
    (rib_manager machine messages start ≡ done (ran (rib_manager machine messages start)))
    × ((ran (rib_manager machine messages start)).rib
        ≡ some (some (published (ran (rib_manager machine messages start)))))
unfolding check accept check_queues polled collect_queues count_rxqs port_qconf_compare
    insertion_sort insert_queue is_greater apply max_lcore_of configure_ports configure_port
    rx_setups tx_setups mark make_rings rib_manager process_message publish_checked set_qconf
    set_desc update_port_status refresh_ports create replace copy_lcores copy_lcore copy_queues
messages_handled = (refl, refl)

rib_manager_sound_example :
    let m' = ran (rib_manager machine messages start) in
    IsContiguous 4 (polled (published m'))
    × HasRings m'.ring_up m'.ring_dn (collect_queues (published m').lcore_qconf)
rib_manager_sound_example =
    rib_manager_sound machine messages start (ran (rib_manager machine messages start))
      (published (ran (rib_manager machine messages start))) machine-SortsRight refl
      messages_handled.0 messages_handled.1

abbrev serving : Manager
serving = record start { rib = some (some info) }

-- Queue 1 of port 0 goes from lcore 1 to lcore 2.
abbrev moved : List LcoreQconf
moved =
    idle
    ∷ idle
    ∷ record { nrxq = 3; rx_queue_list = queue 1 0 ∷ queue 0 0 ∷ queue 0 1 ∷ replicate 13 no_queue }
    ∷ []

moved_ports : (p q : ℕ) → 4 ≤ p → copies p q (polled (set_qconf machine moved info)) ≡ 0
unfolding set_qconf polled collect_queues copy_lcores copy_lcore copy_queues
moved_ports p q le = ground arith

moved_small : length (polled (set_qconf machine moved info)) ≤ max_port_qconf
unfolding set_qconf polled collect_queues copy_lcores copy_lcore copy_queues
moved_small = omega arith

move-refused_example : process_message machine true (qconf moved) serving ≡ done serving
move-refused_example =
    move-refused machine true moved serving info 0 1 1 2 machine-SortsRight refl (omega arith)
      (omega arith) (omega arith) (λ e. cc) (omega arith) (omega arith) refl (omega arith)
      (omega arith) (omega arith) (omega arith) moved_small moved_ports

abbrev table : List LcoreQconf
table = record { nrxq = 1; rx_queue_list = queue 0 0 ∷ replicate 15 no_queue } ∷ idle ∷ []

table_behind : (i p q : ℕ) → copies p q (rxqs (get_or table (suc i) idle)) ≡ 0
table_behind zero p q = refl
table_behind (suc i) p q = refl

table-IsTable : IsTable table
table-IsTable = record { lcores = lcores; once = once; apart = apart }
  where
    lcores : (i : ℕ) → IsLcore (get_or table i idle)
    lcores zero = record { places = refl; in_use = omega arith }
    lcores (suc zero) = record { places = refl; in_use = omega arith }
    lcores (suc (suc i)) = record { places = refl; in_use = omega arith }

    once : (i p q : ℕ) → copies p q (rxqs (get_or table i idle)) ≤ 1
    once zero p q = ground arith
    once (suc i) p q = omega (arith, table_behind i p q)

    apart :
        (i k p q : ℕ)
        → i ≢ k
        → 0 < copies p q (rxqs (get_or table i idle))
        → copies p q (rxqs (get_or table k idle)) ≡ 0
    apart zero zero p q ne pos = absurd (ne refl)
    apart zero (suc k) p q ne pos = table_behind k p q
    apart (suc i) k p q ne pos = absurd (omega (arith, table_behind i p q))

set_thread-moves_example :
    (qs' : List LcoreQconf) × (set_thread 1 0 0 table ≡ done qs')
    × IsTable qs'
    × ((copies 0 0 (rxqs (get_or qs' 1 idle)) ≡ 1)
        ⊎ ((idle.nrxq ≡ max_rx_queue) × (copies 0 0 (rxqs (get_or qs' 1 idle)) ≡ 0)))
    × ((i : ℕ) → i ≢ 1 → copies 0 0 (rxqs (get_or qs' i idle)) ≡ 0)
    × ((i p' q' : ℕ)
        → (0 ≡ p' → 0 ≢ q')
        → copies p' q' (rxqs (get_or qs' i idle)) ≡ copies p' q' (rxqs (get_or table i idle)))
set_thread-moves_example = set_thread-moves 1 0 0 table table-IsTable (omega arith)
