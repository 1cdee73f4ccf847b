-- ===== src/Repeater/Fanout.antt =====
-- To which ports a packet is repeated.
use nettlp_dpdk.Prelude.{
  ℕ, zero, suc, ◌+◌, ◌≡◌, refl, ap, ◌∙◌, arith, inl, inr, Bool, ◌&&◌, ◌==◌, not, List, [], ◌∷◌,
  ◌++◌, ltb, leb, if◌then◌else◌, Bool-cases, eq→==, ==→eq, ==→ne,
}
use nettlp_dpdk.Rib.{Info}
use nettlp_dpdk.Repeater.{
  Event, tap_up, tx_buffered, flushed, tx_burst, Env, Done, port_conf, repeat_to, repeat_from,
  repeat,
}

abbrev pub one_if : Bool → ℕ
one_if b = if b then 1 else 0

-- How often a packet is put into the transmit buffer of a port.
abbrev pub copies_of : ℕ → ℕ → List Event → ℕ
copies_of m t [] = 0
copies_of m t (tap_up p q n ∷ es) = copies_of m t es
copies_of m t (tx_buffered p n ∷ es) = one_if ((p == t) && (n == m)) + copies_of m t es
copies_of m t (flushed p ∷ es) = copies_of m t es
copies_of m t (tx_burst p ns ∷ es) = copies_of m t es

copies_of-append :
    (m t : ℕ) (es fs : List Event) → copies_of m t (es ++ fs) ≡ copies_of m t es + copies_of m t fs
copies_of-append m t [] fs = omega arith
copies_of-append m t (tap_up p q n ∷ es) fs = copies_of-append m t es fs
copies_of-append m t (tx_buffered p n ∷ es) fs = omega (arith, copies_of-append m t es fs)
copies_of-append m t (flushed p ∷ es) fs = copies_of-append m t es fs
copies_of-append m t (tx_burst p ns ∷ es) fs = copies_of-append m t es fs

module _ (env : Env) (info : Info) (m rx : ℕ) where
  -- Another port than that of the packet, with its link up, a transmit buffer, and a copy made.
  abbrev pub takes : ℕ → Bool
  takes t =
      not (rx == t) && (env.link_status (port_conf info t).link && (env.buffer t && env.copied m t))

  repeat_to-copies_of :
      (t tx : ℕ) (d : Done)
      → copies_of m t (repeat_to env info m rx tx d).events
        ≡ copies_of m t d.events + one_if (takes tx && (tx == t))
  unfolding repeat_to
  repeat_to-copies_of t tx d = elim (Bool-cases (rx == tx)) [
    | inl a ↦ rw a (omega arith)
    | inr a ↦ elim (Bool-cases (env.link_status (port_conf info tx).link)) [
      | inr b ↦ rw (a, b) (omega arith)
      | inl b ↦ elim (Bool-cases (env.buffer tx)) [
        | inr c ↦ rw (a, b, c) (omega arith)
        | inl c ↦ elim (Bool-cases (env.copied m tx)) [
          | inr k ↦ rw (a, b, c, k) (omega arith)
          | inl k ↦
              rw (a, b, c, k)
                (copies_of-append m t d.events (tx_buffered tx m ∷ [])
                  ∙ ap (λ e. copies_of m t d.events + e)
                      (elim (Bool-cases (tx == t)) [
                        | inl e ↦ rw (e, eq→== m m refl) (omega arith)
                        | inr e ↦ rw e (omega arith)
                      ]))
        ]
      ]
    ]
  ]

  repeat_from-copies_of :
      (t more tx : ℕ) (d : Done)
      → copies_of m t (repeat_from env more info m rx tx d).events
        ≡ copies_of m t d.events + one_if (takes t && (leb tx t && ltb t (tx + more)))
  unfolding repeat_from
  repeat_from-copies_of t zero tx d = ground arith
  repeat_from-copies_of t (suc more) tx d =
      repeat_from-copies_of t more (tx + 1) (repeat_to env info m rx tx d)
      ∙ ap (λ n. n + one_if (takes t && (leb (tx + 1) t && ltb t (tx + 1 + more))))
          (repeat_to-copies_of t tx d)
      ∙ elim (Bool-cases (tx == t)) [
        | inl e ↦
            let same = ==→eq tx t e in
            rw (e, ap takes same)
              (elim (Bool-cases (takes t)) [
                | inl b ↦ rw b (ground (arith, same))
                | inr b ↦ rw b (omega arith)
              ])
        | inr e ↦
            let differ = ==→ne tx t e in
            elim (Bool-cases (takes t)) [
              | inl b ↦ rw (e, b) (ground (arith, differ))
              | inr b ↦ rw (e, b) (ground arith)
            ]
      ]

  -- A packet is put once into the transmit buffer of every port there is but the one that it came
  -- in by, where the link is up, the thread has a buffer and the copy is made, and into no other.
  pub repeat-copies_of :
      (t : ℕ) (d : Done)
      → copies_of m t (repeat env info m rx d).events
        ≡ copies_of m t d.events + one_if (takes t && ltb t env.nb_ports)
  unfolding repeat
  repeat-copies_of t d =
      repeat_from-copies_of t env.nb_ports 0 d
      ∙ ap (λ b. copies_of m t d.events + one_if (takes t && b)) (ground arith)
