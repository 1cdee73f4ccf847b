-- ===== src/Rib/Moves/Moved.antt =====
-- sdplane/queue_config.c: the command moves a queue to its lcore, and leaves the others.
use mathlib.Core.Path.{subst}
use nettlp_dpdk.Prelude.{
  ℕ, ◌+◌, ◌≤◌, ◌<◌, ◌≡◌, ◌≢◌, refl, sym, ap, ◌∙◌, ◌⊎◌, inl, inr, List, arith, ◌==◌, set, get_or,
  length, done, Bool-cases, ==→eq, ==→ne, lt→ltb, eq→==, ne→==, get_or-set_self, get_or-set_ne,
}
use nettlp_dpdk.Rib.{LcoreQconf, max_rx_queue, rxqs}
use nettlp_dpdk.Rib.Messages.{idle}
use nettlp_dpdk.Rib.Sorting.{copies}
use nettlp_dpdk.Rib.Moves.{purge_others, give, set_thread}
use nettlp_dpdk.Rib.Moves.Purged.{IsLcore, IsPurged, purge_lem}
use nettlp_dpdk.Rib.Moves.Given.{length-purge_others, get_or-purge_others, IsGiven, give_lem}

-- The table of the lcores: each queue is polled by one lcore at most, and once.
pub record IsTable (qs : List LcoreQconf) : Type 0 where
  pub lcores : (i : ℕ) → IsLcore (get_or qs i idle)
  pub once : (i p q : ℕ) → copies p q (rxqs (get_or qs i idle)) ≤ 1
  pub apart :
      (i k p q : ℕ)
      → i ≢ k
      → 0 < copies p q (rxqs (get_or qs i idle))
      → copies p q (rxqs (get_or qs k idle)) ≡ 0

-- The lcores after the command, one by one.
set_thread_lem :
    (lcore p q : ℕ) (qs : List LcoreQconf)
    → IsTable qs
    → lcore < length qs
    → (qs' : List LcoreQconf) × (set_thread lcore p q qs ≡ done qs')
      × IsGiven p q (get_or qs lcore idle) (get_or qs' lcore idle)
      × ((i : ℕ) → i ≢ lcore → IsPurged p q (get_or qs i idle) (get_or qs' i idle))
unfolding set_thread
set_thread_lem lcore p q qs h lt =
    let qs₁ : List LcoreQconf = purge_others p q lcore 0 qs in
    let own : get_or qs₁ lcore idle ≡ get_or qs lcore idle =
      get_or-purge_others p q lcore 0 lcore qs ∙ rw (eq→== (0 + lcore) lcore (omega arith)) refl in
    let here =
      get_or-set_self qs₁ lcore (give p q (get_or qs₁ lcore idle)) idle
        (omega (arith, length-purge_others p q lcore 0 qs))
      ∙ ap (give p q) own in
    (
      set qs₁ lcore (give p q (get_or qs₁ lcore idle)),
      rw (lt→ltb lcore (length qs) lt) refl,
      subst (IsGiven p q (get_or qs lcore idle)) (sym here)
          (give_lem p q (get_or qs lcore idle) (h.lcores lcore) (h.once lcore p q)),
      λ i ne.
          let c : LcoreQconf = get_or qs i idle in
          subst (IsPurged p q c)
            (sym (
              get_or-set_ne qs₁ lcore i _ idle (λ e. ne (sym e))
              ∙ get_or-purge_others p q lcore 0 i qs
              ∙ rw (ne→== (0 + i) lcore (λ e. ne (omega (arith, e)))) refl))
            (purge_lem p q c.nrxq 0 c (h.lcores i) (h.once i p q) (omega arith) refl),
    )

eq_cases : (i k : ℕ) → (i ≡ k) ⊎ (i ≢ k)
eq_cases i k = elim (Bool-cases (i == k)) [ inl e ↦ inl (==→eq i k e) | inr e ↦ inr (==→ne i k e) ]

queue_cases : (p q p' q' : ℕ) → ((p ≡ p') × (q ≡ q')) ⊎ (p ≡ p' → q ≢ q')
queue_cases p q p' q' = elim (eq_cases p p') [
  | inr ne ↦ inr (λ e. absurd (ne e))
  | inl ep ↦ elim (eq_cases q q') [ inl eq ↦ inl (ep, eq) | inr ne ↦ inr (λ e. ne) ]
]

-- What the command leaves of any one lcore, with `set_thread_lem` for the rest.
record IsKept (p q : ℕ) (c c' : LcoreQconf) : Type 0 where
  lcore : IsLcore c'
  at_most : copies p q (rxqs c') ≤ 1
  others : (p' q' : ℕ) → (p ≡ p' → q ≢ q') → copies p' q' (rxqs c') ≡ copies p' q' (rxqs c)

each-IsKept :
    (lcore p q : ℕ) (qs qs' : List LcoreQconf)
    → IsGiven p q (get_or qs lcore idle) (get_or qs' lcore idle)
    → ((i : ℕ) → i ≢ lcore → IsPurged p q (get_or qs i idle) (get_or qs' i idle))
    → (i : ℕ) → IsKept p q (get_or qs i idle) (get_or qs' i idle)
each-IsKept lcore p q qs qs' own rest i = elim (eq_cases i lcore) [
  | inr ne ↦
      let r = rest i ne in
      record { lcore = r.lcore; at_most = omega (arith, r.gone); others = r.others }
  | inl e ↦
      subst (λ k. IsKept p q (get_or qs k idle) (get_or qs' k idle)) (sym e)
        (record {
          lcore = own.lcore;
          at_most = elim own.given [ inl one ↦ omega arith | inr (full, gone) ↦ omega arith ];
          others = own.others;
        })
]

kept-IsTable :
    (lcore p q : ℕ) (qs qs' : List LcoreQconf)
    → IsTable qs
    → ((i : ℕ) → IsKept p q (get_or qs i idle) (get_or qs' i idle))
    → ((i : ℕ) → i ≢ lcore → copies p q (rxqs (get_or qs' i idle)) ≡ 0)
    → IsTable qs'
kept-IsTable lcore p q qs qs' h kept gone = record {
  lcores = λ i. (kept i).lcore;
  once = λ i p' q'. elim (queue_cases p q p' q') [
    | inl (ep, eq) ↦
        subst (λ k. copies p' k (rxqs (get_or qs' i idle)) ≤ 1) eq
          (subst (λ k. copies k q (rxqs (get_or qs' i idle)) ≤ 1) ep (kept i).at_most)
    | inr ne ↦ omega (arith, (kept i).others p' q' ne, h.once i p' q')
  ];
  apart = λ i k p' q' ne pos. elim (queue_cases p q p' q') [
    | inr other ↦
        (kept k).others p' q' other
        ∙ h.apart i k p' q' ne (omega (arith, (kept i).others p' q' other))
    | inl (ep, eq) ↦
        subst (λ m. copies p' m (rxqs (get_or qs' k idle)) ≡ 0) eq
          (subst (λ m. copies m q (rxqs (get_or qs' k idle)) ≡ 0) ep
            (elim (eq_cases k lcore) [
              | inr far ↦ gone k far
              | inl near ↦
                  let e : copies p q (rxqs (get_or qs' i idle)) ≡ 0 =
                    gone i (λ e. ne (e ∙ sym near)) in
                  absurd (
                    omega (
                      arith,
                      e,
                      ap (λ m. copies m q (rxqs (get_or qs' i idle))) ep,
                      ap (λ m. copies p' m (rxqs (get_or qs' i idle))) eq,
                    ))
            ]))
  ];
}

-- `set thread` keeps the table right: each lcore's list within its 16 places, each queue polled by
-- one lcore at most, and once. No lcore but the one of the command polls the queue of the command;
-- that one polls it, or polls 16 other queues. Every other queue stays where it was.
pub set_thread-moves :
    (lcore p q : ℕ) (qs : List LcoreQconf)
    → IsTable qs
    → lcore < length qs
    → (qs' : List LcoreQconf) × (set_thread lcore p q qs ≡ done qs')
      × IsTable qs'
      × ((copies p q (rxqs (get_or qs' lcore idle)) ≡ 1)
          ⊎ (((get_or qs lcore idle).nrxq ≡ max_rx_queue)
              × (copies p q (rxqs (get_or qs' lcore idle)) ≡ 0)))
      × ((i : ℕ) → i ≢ lcore → copies p q (rxqs (get_or qs' i idle)) ≡ 0)
      × ((i p' q' : ℕ)
          → (p ≡ p' → q ≢ q')
          → copies p' q' (rxqs (get_or qs' i idle)) ≡ copies p' q' (rxqs (get_or qs i idle)))
set_thread-moves lcore p q qs h lt =
    let (qs', ran, own, rest) = set_thread_lem lcore p q qs h lt in
    let kept = each-IsKept lcore p q qs qs' own rest in
    let gone = λ (i : ℕ) (ne : i ≢ lcore). (rest i ne).gone in
    (
      qs',
      ran,
      kept-IsTable lcore p q qs qs' h kept gone,
      own.given,
      gone,
      λ i p' q' ne. (kept i).others p' q' ne,
    )
