-- ===== src/Rib/Moves/Given.antt =====
-- sdplane/queue_config.c: an lcore's list in the table after the search, and after a queue is added.
use nettlp_dpdk.Prelude.{
  ℕ, zero, suc, ◌+◌, ◌≤◌, ◌<◌, ◌≡◌, ◌≢◌, refl, sym, ap, ◌∙◌, ◌⊎◌, inl, inr, true, false, List, [],
  ◌∷◌, arith, ltb, ◌==◌, if◌then◌else◌, set, take, get_or, length, Bool-cases, ltb→lt, ltb→le,
  length-set, take-suc-set, take_eq,
}
use nettlp_dpdk.Rib.{PortQueue, LcoreQconf, max_rx_queue, rxqs}
use nettlp_dpdk.Rib.Messages.{idle}
use nettlp_dpdk.Rib.Sorting.{one_if, copies, copies-append}
use nettlp_dpdk.Rib.Moves.{is_queue, purge, purge_others, has_queue, give}
use nettlp_dpdk.Rib.Moves.Purged.{IsLcore}

pub length-purge_others :
    (p q lcore i : ℕ) (qs : List LcoreQconf) → length (purge_others p q lcore i qs) ≡ length qs
unfolding purge_others
length-purge_others p q lcore i [] = refl
length-purge_others p q lcore i (c ∷ cs) = ap suc (length-purge_others p q lcore (i + 1) cs)

purge-idle : (p q : ℕ) → purge p q idle.nrxq 0 idle ≡ idle
unfolding purge
purge-idle p q = refl

pub get_or-purge_others :
    (p q lcore i k : ℕ) (qs : List LcoreQconf)
    → get_or (purge_others p q lcore i qs) k idle ≡ (
        if (i + k) == lcore
        then get_or qs k idle
        else purge p q (get_or qs k idle).nrxq 0 (get_or qs k idle))
unfolding purge_others
get_or-purge_others p q lcore i k [] = elim (Bool-cases ((i + k) == lcore)) [
  | inl e ↦ rw e refl
  | inr e ↦ rw e (sym (purge-idle p q))
]
get_or-purge_others p q lcore i zero (c ∷ cs) =
    ap (λ n. if n == lcore then c else purge p q c.nrxq 0 c) (here i)
  where
    here : (i : ℕ) → i ≡ i + 0
    here i = omega arith
get_or-purge_others p q lcore i (suc k) (c ∷ cs) =
    get_or-purge_others p q lcore (i + 1) k cs
    ∙ ap
        (λ n.
          if n == lcore
          then get_or cs k idle
          else purge p q (get_or cs k idle).nrxq 0 (get_or cs k idle))
        (next i k)
  where
    next : (i k : ℕ) → i + 1 + k ≡ i + suc k
    next i k = omega arith

has_queue-copies :
    (p q : ℕ) (xs : List PortQueue)
    → ((has_queue p q xs ≡ true) × (0 < copies p q xs))
      ⊎ ((has_queue p q xs ≡ false) × (copies p q xs ≡ 0))
unfolding has_queue
has_queue-copies p q [] = inr (refl, refl)
has_queue-copies p q (x ∷ xs) = elim (Bool-cases (is_queue p q x)) [
  | inl hit ↦ inl (rw hit refl, rw hit (omega arith))
  | inr miss ↦ elim (has_queue-copies p q xs) [
    | inl (has, lt) ↦ inl (rw miss has, rw miss (omega arith))
    | inr (not, e) ↦ inr (rw miss not, rw miss (omega arith))
  ]
]

copies-added :
    (p q n : ℕ) (xs : List PortQueue) (x : PortQueue)
    → n < length xs
    → copies p q (take (n + 1) (set xs n x)) ≡ copies p q (take n xs) + one_if (is_queue p q x)
copies-added p q n xs x lt =
    ap (copies p q) (take_eq (n + 1) (suc n) (set xs n x) (omega arith) ∙ take-suc-set n xs x lt)
    ∙ omega (arith, copies-append p q (take n xs) (x ∷ []))

is_queue_self : (p q : ℕ) → is_queue p q (record { port_id = p; queue_id = q }) ≡ true
is_queue_self p q = ground arith

is_queue_other :
    (p q p' q' : ℕ)
    → (p ≡ p' → q ≢ q')
    → is_queue p' q' (record { port_id = p; queue_id = q }) ≡ false
is_queue_other p q p' q' ne = ground arith

-- What an lcore has after it was given a queue.
pub record IsGiven (p q : ℕ) (c c' : LcoreQconf) : Type 0 where
  pub lcore : IsLcore c'
  pub given : (copies p q (rxqs c') ≡ 1) ⊎ ((c.nrxq ≡ max_rx_queue) × (copies p q (rxqs c') ≡ 0))
  pub others : (p' q' : ℕ) → (p ≡ p' → q ≢ q') → copies p' q' (rxqs c') ≡ copies p' q' (rxqs c)

pub give_lem :
    (p q : ℕ) (c : LcoreQconf) → IsLcore c → copies p q (rxqs c) ≤ 1 → IsGiven p q c (give p q c)
unfolding give
give_lem p q c h once = elim (has_queue-copies p q (rxqs c)) [
  | inl (has, lt) ↦
      rw (give, has) (record { lcore = h; given = inl (omega arith); others = λ p' q' ne. refl })
  | inr (not, e) ↦ elim (Bool-cases (ltb c.nrxq max_rx_queue)) [
    | inr full ↦
        rw (give, not, full)
          (record {
            lcore = h;
            given = inr (omega (arith, ltb→le c.nrxq max_rx_queue full, h.in_use), e);
            others = λ p' q' ne. refl;
          })
    | inl room ↦
        let lt : c.nrxq < length c.rx_queue_list =
          omega (arith, ltb→lt c.nrxq max_rx_queue room, h.places) in
        let added = λ (p' q' : ℕ).
          copies-added p' q' c.nrxq c.rx_queue_list (record { port_id = p; queue_id = q }) lt in
        rw (give, not, room)
          (record {
            lcore = record {
              places = length-set c.rx_queue_list c.nrxq _ ∙ h.places;
              in_use = omega (arith, ltb→lt c.nrxq max_rx_queue room);
            };
            given = inl (added p q ∙ rw (e, is_queue_self p q) refl);
            others = λ p' q' ne. added p' q' ∙ rw (is_queue_other p q p' q' ne) (omega arith);
          })
  ]
]
