-- ===== src/Rib/Moves/Purged.antt =====
-- sdplane/queue_config.c: what is left of an lcore's list after a queue is taken from it.
use nettlp_dpdk.Prelude.{
  ℕ, zero, suc, ◌+◌, ◌-◌, ◌≤◌, ◌<◌, ◌≡◌, ◌≢◌, refl, sym, ap, ◌∙◌, inl, inr, true, false, List, [],
  ◌∷◌, ◌++◌, arith, ltb, ◌==◌, take, drop, delete, get_or, length, memmove, Bool-cases, ltb→lt,
  ltb→le, ==→eq, length-take, length-drop, length-append, take_append, take_all, delete-take_last,
  get_or-take, drop_step, drop_all, drop_eq, take_eq,
}
use nettlp_dpdk.Rib.{PortQueue, LcoreQconf, max_rx_queue, rxqs}
use nettlp_dpdk.Rib.Messages.{no_queue}
use nettlp_dpdk.Rib.Sorting.{one_if, copies}
use nettlp_dpdk.Rib.Moves.{is_queue, move_down, purge}

-- An lcore's list has its 16 places, of which nrxq are in use.
pub record IsLcore (c : LcoreQconf) : Type 0 where
  pub places : length c.rx_queue_list ≡ max_rx_queue
  pub in_use : c.nrxq ≤ max_rx_queue

copies-delete :
    (p q : ℕ) (xs : List PortQueue) (j : ℕ)
    → j < length xs
    → copies p q xs ≡ one_if (is_queue p q (get_or xs j no_queue)) + copies p q (delete xs j)
copies-delete p q [] j h = elim h [ ]
copies-delete p q (x ∷ xs) zero h = refl
copies-delete p q (x ∷ xs) (suc j) h = omega (arith, copies-delete p q xs j (omega arith))

-- The part in use of a list after the move of the `d` elements behind place `j`.
take-memmove :
    (n m j d : ℕ) (xs rest : List PortQueue)
    → n ≡ j + suc d
    → m ≡ j + d
    → n ≤ length xs
    → take m (take j xs ++ (take d (drop (suc j) xs) ++ rest)) ≡ delete (take n xs) j
take-memmove n m j d [] rest en em le = absurd (omega arith)
take-memmove n m zero d (x ∷ xs) rest en em le =
    let en' : n ≡ suc d = omega arith in
    let em' : m ≡ d = omega arith in
    rw (en', em')
      (take_append d (take d xs) rest (omega (arith, length-take d xs))
        ∙ take_all d (take d xs) (omega (arith, length-take d xs)))
take-memmove n m (suc j) d (x ∷ xs) rest en em le =
    let en' : n ≡ suc (j + suc d) = omega arith in
    let em' : m ≡ suc (j + d) = omega arith in
    rw (en', em')
      (ap (λ l. x ∷ l) (take-memmove (j + suc d) (j + d) j d xs rest refl refl (omega arith)))

length-memmove :
    (j s d : ℕ) (xs : List PortQueue)
    → s + d ≤ length xs
    → j ≤ s
    → length (memmove xs j s d) ≡ length xs
length-memmove j s d xs le lt = omega (
  arith,
  length-append (take j xs) (take d (drop s xs) ++ drop (j + d) xs),
  length-append (take d (drop s xs)) (drop (j + d) xs),
  length-take j xs,
  length-take d (drop s xs),
  length-drop s xs,
  length-drop (j + d) xs,
)

move_down-nrxq : (j : ℕ) (c : LcoreQconf) → (move_down j c).nrxq ≡ c.nrxq - 1
unfolding move_down
move_down-nrxq j c = refl

is_queue_ne :
    (p q p' q' : ℕ) (x : PortQueue)
    → is_queue p q x ≡ true
    → (p ≡ p' → q ≢ q')
    → is_queue p' q' x ≡ false
is_queue_ne p q p' q' x hit ne = ground arith

move_down-IsLcore : (j : ℕ) (c : LcoreQconf) → IsLcore c → j < c.nrxq → IsLcore (move_down j c)
unfolding move_down
move_down-IsLcore j c h lt = elim (Bool-cases (c.nrxq - (j + 1) == 0)) [
  | inl last ↦ record { places = rw last h.places; in_use = omega (arith, h.in_use) }
  | inr more ↦ record {
    places = rw more (
        length-memmove j (j + 1) (c.nrxq - (j + 1)) c.rx_queue_list
          (omega (arith, h.places, h.in_use)) (omega arith)
        ∙ h.places);
    in_use = omega (arith, h.in_use);
  }
]

rxqs-move_down :
    (j : ℕ) (c : LcoreQconf) → IsLcore c → j < c.nrxq → rxqs (move_down j c) ≡ delete (rxqs c) j
unfolding move_down
rxqs-move_down j c h lt = elim (Bool-cases (c.nrxq - (j + 1) == 0)) [
  | inl last ↦
      let e : c.nrxq ≡ suc j = omega (arith, ==→eq (c.nrxq - (j + 1)) 0 last) in
      rw last (
        take_eq (c.nrxq - 1) j c.rx_queue_list (omega arith)
        ∙ sym (delete-take_last j c.rx_queue_list)
        ∙ ap (λ n. delete (take n c.rx_queue_list) j) (sym e))
  | inr more ↦ rw more (
      drop_at (j + 1) (suc j) (omega arith)
      ∙ take-memmove c.nrxq (c.nrxq - 1) j (c.nrxq - (j + 1)) c.rx_queue_list _ (omega arith)
          (omega arith) (omega (arith, h.places, h.in_use)))
]
  where
    drop_at :
        (s s' : ℕ)
        → s ≡ s'
        → take (c.nrxq - 1) (memmove c.rx_queue_list j s (c.nrxq - (j + 1)))
          ≡ take (c.nrxq - 1) (memmove c.rx_queue_list j s' (c.nrxq - (j + 1)))
    drop_at s s' e = ap (λ k. take (c.nrxq - 1) (memmove c.rx_queue_list j k (c.nrxq - (j + 1)))) e

copies-drop :
    (p q : ℕ) (xs : List PortQueue) (j : ℕ)
    → j < length xs
    → copies p q (drop j xs)
      ≡ one_if (is_queue p q (get_or xs j no_queue)) + copies p q (drop (j + 1) xs)
copies-drop p q xs j lt =
    ap (copies p q) (drop_step j xs no_queue lt)
    ∙ ap (λ l. one_if (is_queue p q (get_or xs j no_queue)) + copies p q l)
        (drop_eq (suc j) (j + 1) xs (omega arith))

copies-drop_le : (p q : ℕ) (xs : List PortQueue) (j : ℕ) → copies p q (drop j xs) ≤ copies p q xs
copies-drop_le p q xs zero = omega arith
copies-drop_le p q [] (suc j) = omega arith
copies-drop_le p q (x ∷ xs) (suc j) = omega (arith, copies-drop_le p q xs j)

copies-drop_none :
    (p q : ℕ) (xs : List PortQueue) (j : ℕ) → copies p q xs ≡ 0 → copies p q (drop j xs) ≡ 0
copies-drop_none p q xs j h = omega (arith, copies-drop_le p q xs j)

-- What is left of an lcore after a queue is taken from it.
pub record IsPurged (p q : ℕ) (c c' : LcoreQconf) : Type 0 where
  pub lcore : IsLcore c'
  pub gone : copies p q (rxqs c') ≡ 0
  pub others : (p' q' : ℕ) → (p ≡ p' → q ≢ q') → copies p' q' (rxqs c') ≡ copies p' q' (rxqs c)

rxqs-length : (c : LcoreQconf) → IsLcore c → length (rxqs c) ≡ c.nrxq
rxqs-length c h = omega (arith, length-take c.nrxq c.rx_queue_list, h.places, h.in_use)

IsPurged-past :
    (p q j : ℕ) (c : LcoreQconf)
    → IsLcore c
    → c.nrxq ≤ j
    → copies p q (rxqs c) ≡ copies p q (drop j (rxqs c))
    → IsPurged p q c c
IsPurged-past p q j c h past here = record {
  lcore = h;
  gone = here ∙ ap (copies p q) (drop_all j (rxqs c) (omega (arith, rxqs-length c h)));
  others = λ p' q' ne. refl;
}

-- The queue of a list that occurs once is gone when it is removed, and what a list without it is
-- purged to is what the list was purged to.
IsPurged-after :
    (p q j : ℕ) (c r : LcoreQconf)
    → IsLcore c
    → copies p q (rxqs c) ≤ 1
    → j < c.nrxq
    → is_queue p q (get_or c.rx_queue_list j no_queue) ≡ true
    → (IsLcore (move_down j c)
        → copies p q (rxqs (move_down j c)) ≡ 0
        → IsPurged p q (move_down j c) r)
    → IsPurged p q c r
IsPurged-after p q j c r h once lt hit purged =
    let x : PortQueue = get_or c.rx_queue_list j no_queue in
    let at : get_or (rxqs c) j no_queue ≡ x = get_or-take c.nrxq j c.rx_queue_list no_queue lt in
    let gone : copies p q (rxqs (move_down j c)) ≡ 0 =
      ap (copies p q) (rxqs-move_down j c h lt) ∙ ground (arith, split p q, at, hit) in
    let rest = purged (move_down-IsLcore j c h lt) gone in
    record {
      lcore = rest.lcore;
      gone = rest.gone;
      others = λ p' q' ne.
          rest.others p' q' ne
          ∙ ap (copies p' q') (rxqs-move_down j c h lt)
          ∙ ground (arith, split p' q', at, is_queue_ne p q p' q' _ hit ne);
    }
  where
    split :
        (p' q' : ℕ)
        → copies p' q' (rxqs c)
          ≡ one_if (is_queue p' q' (get_or (rxqs c) j no_queue)) + copies p' q' (delete (rxqs c) j)
    split p' q' = copies-delete p' q' (rxqs c) j (omega (arith, rxqs-length c h))

pub purge_lem :
    (p q left j : ℕ) (c : LcoreQconf)
    → IsLcore c
    → copies p q (rxqs c) ≤ 1
    → c.nrxq ≤ j + left
    → copies p q (rxqs c) ≡ copies p q (drop j (rxqs c))
    → IsPurged p q c (purge p q left j c)
unfolding purge
purge_lem p q zero j c h once enough here = IsPurged-past p q j c h (omega arith) here
purge_lem p q (suc left) j c h once enough here = elim (Bool-cases (ltb j c.nrxq)) [
  | inr past ↦ rw past (IsPurged-past p q j c h (ltb→le j c.nrxq past) here)
  | inl lt ↦
      let at = get_or-take c.nrxq j c.rx_queue_list no_queue (ltb→lt j c.nrxq lt) in
      let room = rxqs-length c h in
      elim (Bool-cases (is_queue p q (get_or c.rx_queue_list j no_queue))) [
        | inr miss ↦
            rw (lt, miss)
              (purge_lem p q left (j + 1) c h once (omega arith) (
                here
                ∙ copies-drop p q (rxqs c) j (omega (arith, ltb→lt j c.nrxq lt))
                ∙ ground (arith, at, miss)))
        | inl hit ↦
            rw (lt, hit)
              (IsPurged-after p q j c _ h once (ltb→lt j c.nrxq lt) hit (λ lcore gone.
                purge_lem p q left (j + 1) (move_down j c) lcore (omega arith)
                  (omega (arith, move_down-nrxq j c))
                  (gone ∙ sym (copies-drop_none p q (rxqs (move_down j c)) (j + 1) gone))))
      ]
]
