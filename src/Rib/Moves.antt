-- ===== src/Rib/Moves.antt =====
-- sdplane/queue_config.c: the table of queues per lcore that the command `set thread` changes.
-- The numbers of the command line are arguments, after strtol and the cast to 16 bits. An lcore
-- beyond the table is `abort`.
pub mod Purged
pub mod Given
pub mod Moved
use nettlp_dpdk.Prelude.{
  ℕ, zero, suc, ◌+◌, ◌-◌, Bool, true, false, ◌&&◌, Option, none, some, List, [], ◌∷◌, ltb, ◌==◌,
  if◌then◌else◌, set, take, get_or, length, memmove, Run, done, abort,
}
use nettlp_dpdk.Rib.{PortQueue, LcoreQconf, max_rx_queue, rxqs}
use nettlp_dpdk.Rib.Messages.{no_queue, idle}

abbrev pub is_queue : ℕ → ℕ → PortQueue → Bool
is_queue p q x = x.port_id == p && x.queue_id == q

-- A queue taken out of an lcore's list.
pub move_down : ℕ → LcoreQconf → LcoreQconf
move_down j c =
    let num : ℕ = c.nrxq - (j + 1) in
    record {
      nrxq = c.nrxq - 1;
      rx_queue_list = if num == 0 then c.rx_queue_list else memmove c.rx_queue_list j (j + 1) num;
    }

-- The inner loop of the search, from place `j` on: nrxq goes down as the loop goes, and `left` rounds
-- are enough where it was nrxq at the start.
pub purge : ℕ → ℕ → ℕ → ℕ → LcoreQconf → LcoreQconf
purge p q zero j c = c
purge p q (suc left) j c =
    let next : LcoreQconf =
      if is_queue p q (get_or c.rx_queue_list j no_queue) then move_down j c else c in
    let rest = purge p q left (j + 1) next in if ltb j c.nrxq then rest else c

-- The outer loop, from lcore `i` on: the lcore of the command keeps its queues.
pub purge_others : ℕ → ℕ → ℕ → ℕ → List LcoreQconf → List LcoreQconf
purge_others p q lcore i [] = []
purge_others p q lcore i (c ∷ cs) =
    (if i == lcore then c else purge p q c.nrxq 0 c) ∷ purge_others p q lcore (i + 1) cs

-- The loop for a match in the lcore's list.
pub has_queue : ℕ → ℕ → List PortQueue → Bool
has_queue p q [] = false
has_queue p q (x ∷ xs) = let rest = has_queue p q xs in if is_queue p q x then true else rest

pub give : ℕ → ℕ → LcoreQconf → LcoreQconf
give p q c =
    if has_queue p q (rxqs c)
    then c
    else if ltb c.nrxq max_rx_queue
    then record {
      nrxq = c.nrxq + 1;
      rx_queue_list = set c.rx_queue_list c.nrxq (record { port_id = p; queue_id = q });
    }
    else c

-- set_thread_lcore_port_queue, up to the message that it sends with the table
pub set_thread : ℕ → ℕ → ℕ → List LcoreQconf → Run (List LcoreQconf)
set_thread lcore p q qs =
    let qs₁ = purge_others p q lcore 0 qs in
    if ltb lcore (length qs) then done (set qs₁ lcore (give p q (get_or qs₁ lcore idle))) else abort

-- The loops of qconf_diff: the first queue of the new list that the old one has too.
pub qconf_diff : List PortQueue → List PortQueue → Option PortQueue
qconf_diff [] old = none
qconf_diff (p ∷ new) old =
    let rest = qconf_diff new old in if has_queue p.port_id p.queue_id old then some p else rest
