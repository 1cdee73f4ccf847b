-- ===== src/Dma/Psmem/Rounds.antt =====
-- The rounds of nettlp_psmem_mrd: how many there are, and what they send.
use nettlp_dpdk.Prelude.{
  take-split, drop-plus, append-nil, ℕ, zero, suc, ◌+◌, ◌-◌, ◌*◌, ◌/◌, ◌%◌, ◌^◌, ◌≤◌, ◌<◌, ◌≡◌,
  refl, ap, ◌∙◌, inl, inr, true, false, none, some, List, [], ◌∷◌, ◌++◌, arith, ltb, if◌then◌else◌,
  done, length, take, drop, ◌>>=◌, Bool-cases, ltb→lt, ltb→le, le→ltb, length-take,
}
use nettlp_dpdk.Tlp.ByteOrder.{Net}
use nettlp_dpdk.Tlp.{MrHeader, word, mr_addr, mr_data_length, tlp_length, is_3dw, calculate_length}
use nettlp_dpdk.Tlp.Enable.{calculate_length-dw}
use nettlp_dpdk.Tlp.Length.{Describes, mr_data_length-count, mr_addr-addr}
use nettlp_dpdk.Dma.Psmem.{Psmem, sign_extend}
use nettlp_dpdk.Dma.Psmem.Access.{sign_extend_small, is_outside_not}
use nettlp_dpdk.Dma.Psmem.Reply.{
  Completion, max_payload, chunk, is_positive, add_reply, reply_at, mrd_loop, psmem_mrd,
}

-- The bytes of all completions, in their order.
abbrev pub all_bytes : List Completion → List ℕ
all_bytes [] = []
all_bytes (c ∷ cs) = c.bytes ++ all_bytes cs

-- No completion has more bytes than a payload may.
abbrev pub AllWithin : List Completion → Type 0
AllWithin [] = Unit
AllWithin (c ∷ cs) = (length c.bytes ≤ max_payload) × AllWithin cs

chunk_small : (len : ℕ) → len ≤ 256 → chunk len ≡ len
chunk_small len h = ground arith

chunk_large : (len : ℕ) → 256 < len → chunk len ≡ 256
chunk_large len h = ground arith

chunk_part : (len : ℕ) → len % 4 ≡ 0 → (chunk len ≤ len) × (chunk len % 4 ≡ 0)
chunk_part len h = (ground arith, ground arith)

module _ (net : Net) (p : Psmem) (mh : MrHeader) (requester : ℕ) where
  -- A round whose bytes are in the memory, by the test behind it.
  round_lem :
      (fuel len d addr : ℕ)
      → p.base ≤ addr / 4 * 4
      → addr / 4 * 4 - p.base + chunk len ≤ length p.memory
      → mrd_loop net (suc fuel) p mh requester len d addr ≡ (
          if is_positive ((d + word - chunk len + addr % 4) % word)
          then (mrd_loop net fuel p mh requester
                (len - chunk len)
                ((d + word - chunk len + addr % 4) % word)
                ((addr / 4 * 4 + chunk len) % word)
              >>= add_reply (reply_at net p mh requester len d addr))
          else done (some (reply_at net p mh requester len d addr ∷ [])))
  unfolding mrd_loop
  round_lem fuel len d addr low high =
      rw
        (
          mrd_loop,
          le→ltb (addr / 4 * 4) p.base low,
          le→ltb (length p.memory) (addr / 4 * 4 - p.base + chunk len) high,
        )
        refl

  -- The last round.
  round_last :
      (fuel len d addr ch : ℕ)
      → p.base ≤ addr / 4 * 4
      → addr / 4 * 4 - p.base + len ≤ length p.memory
      → len ≤ 256
      → len ≡ d + addr % 4 + ch
      → ch ≤ 3
      → 0 < len
      → (mrd_loop net (suc fuel) p mh requester len d addr
          ≡ done (some (reply_at net p mh requester len d addr ∷ [])))
        × (reply_at net p mh requester len d addr).bytes
          ≡ take len (drop (addr / 4 * 4 - p.base) p.memory)
  round_last fuel len d addr ch low high small e lt pos =
      let c = chunk_small len small in
      let stop : is_positive ((d + word - chunk len + addr % 4) % word) ≡ false =
        ground (arith, c) in
      (
        round_lem fuel len d addr low (omega (arith, c)) ∙ rw stop refl,
        ap (λ n. take n (drop (addr / 4 * 4 - p.base) p.memory)) c,
      )

  -- The loop over what is left of a request, of which `ch` bytes at the end are not asked for.
  rounds :
      (fuel len d addr ch : ℕ)
      → len ≡ d + addr % 4 + ch
      → ch ≤ 3
      → 0 < d
      → len % 4 ≡ 0
      → len < 2 ^ 32
      → len ≤ fuel
      → p.base ≤ addr / 4 * 4
      → addr / 4 * 4 - p.base + len ≤ length p.memory
      → addr / 4 * 4 + len < word
      → (cs : List Completion) × (mrd_loop net fuel p mh requester len d addr ≡ done (some cs))
        × (all_bytes cs ≡ take len (drop (addr / 4 * 4 - p.base) p.memory))
        × AllWithin cs
  rounds zero len d addr ch e lt pos dw small enough low high fits = absurd (omega arith)
  rounds (suc fuel) len d addr ch e lt pos dw small enough low high fits =
      elim (Bool-cases (ltb 256 len)) [
        | inr few ↦
            let le = ltb→le 256 len few in
            let (ran, bytes) = round_last fuel len d addr ch low high le e lt (omega arith) in
            let window : List ℕ = drop (addr / 4 * 4 - p.base) p.memory in
            (
              reply_at net p mh requester len d addr ∷ [],
              ran,
              append-nil _ ∙ bytes,
              (omega (arith, ap length bytes, length-take len window), tt),
            )
        | inl many ↦
            let gt = ltb→lt 256 len many in
            let c = chunk_large len gt in
            let off : ℕ = addr / 4 * 4 - p.base in
            let d' : ℕ = (d + word - chunk len + addr % 4) % word in
            let addr' : ℕ = (addr / 4 * 4 + chunk len) % word in
            let rest : d' ≡ d + addr % 4 - 256 = omega (arith, c) in
            let next : addr' ≡ addr / 4 * 4 + 256 = omega (arith, c) in
            let going : is_positive d' ≡ true = ground (arith, rest) in
            let (cs, ran, bytes, all) =
              rounds fuel (len - chunk len) d' addr' ch (omega (arith, c, rest, next)) lt
                (omega (arith, rest)) (omega (arith, c)) (omega (arith, c)) (omega (arith, c))
                (omega (arith, next)) (omega (arith, c, next)) (omega (arith, c, next)) in
            (
              reply_at net p mh requester len d addr ∷ cs,
              round_lem fuel len d addr low (omega (arith, c)) ∙ rw (going, ran) refl,
              ap (λ l. take (chunk len) (drop off p.memory) ++ l)
                    (bytes
                      ∙ ap (λ l. take (len - chunk len) l)
                          (drop-plus off (chunk len) (addr' / 4 * 4 - p.base) p.memory
                            (omega (arith, c, next))))
                  ∙ take-split (chunk len) (len - chunk len) len (drop off p.memory)
                      (omega (arith, c)),
              (omega (arith, c, length-take (chunk len) (drop off p.memory)), all),
            )
      ]

  -- The loop where more is counted than there is to send.
  drained :
      (fuel len d addr : ℕ)
      → len % 4 ≡ 0
      → len < d + addr % 4
      → d + addr % 4 < 2 ^ 62
      → p.base ≤ addr / 4 * 4
      → addr / 4 * 4 - p.base + len ≤ length p.memory
      → addr / 4 * 4 + len < word
      → mrd_loop net fuel p mh requester len d addr ≡ done none
  unfolding mrd_loop
  drained zero len d addr dw more small low high fits = refl
  drained (suc fuel) len d addr dw more small low high fits =
      let (part, whole) = chunk_part len dw in
      let d' : ℕ = (d + word - chunk len + addr % 4) % word in
      let addr' : ℕ = (addr / 4 * 4 + chunk len) % word in
      let rest : d' ≡ d + addr % 4 - chunk len = omega (arith, part) in
      let next : addr' ≡ addr / 4 * 4 + chunk len = omega (arith, part) in
      let going : is_positive d' ≡ true = ground (arith, rest, part) in
      let aligned : addr' % 4 ≡ 0 = omega (arith, next, whole) in
      let ih =
        drained fuel (len - chunk len) d' addr' (omega (arith, dw, whole, part))
          (omega (arith, rest, part)) (omega (arith, rest, part, aligned)) (omega (arith, next))
          (omega (arith, next, part, whole)) (omega (arith, next, part, whole)) in
      round_lem fuel len d addr low (omega (arith, part)) ∙ rw (going, ih) refl

  -- The memory holds the region.
  module _ (fuel addr field : ℕ) (base : p.base ≤ addr / 4 * 4)
      (inside : addr + tlp_length net mh.tlp.falen * 4 ≤ p.base + p.size)
      (region : p.base + p.size < word) (memory : p.size ≤ length p.memory)
      (enough : tlp_length net mh.tlp.falen * 4 ≤ fuel) where
    mrd_taken :
        mr_addr net mh field ≡ addr
        → psmem_mrd net fuel p mh requester field
          ≡ mrd_loop net fuel p mh requester
              (tlp_length net mh.tlp.falen * 4)
              (sign_extend (mr_data_length net mh))
              addr
    unfolding psmem_mrd
    mrd_taken e =
        rw
          (
            psmem_mrd,
            e,
            is_outside_not p addr (tlp_length net mh.tlp.falen * 4) (omega arith) inside region,
          )
          refl

    -- A read request whose header has the byte enables and the length computed for at least one byte
    -- is answered after as many rounds at most as it has bytes in its DWs, where these lie in the
    -- region as far as the test goes: the completions, of at most 256 bytes each, carry the bytes of
    -- its DWs, in their order.
    pub psmem_mrd-answers :
        (count : ℕ)
        → 0 < count
        → count < 2 ^ 30
        → addr + count + 4 ≤ word
        → Describes net mh addr count
        → (if is_3dw mh.tlp.fmt_type then net.ntoh32 field else net.ntoh64 field) ≡ addr / 4 * 4
        → (cs : List Completion) × (psmem_mrd net fuel p mh requester field ≡ done (some cs))
          × (all_bytes cs
              ≡ take (calculate_length addr count * 4) (drop (addr / 4 * 4 - p.base) p.memory))
          × AllWithin cs
    psmem_mrd-answers count pos small fits d e =
        let len : ℕ = tlp_length net mh.tlp.falen * 4 in
        let at = mr_addr-addr net addr count pos fits mh field d e in
        let asked : sign_extend (mr_data_length net mh) ≡ count =
          ap sign_extend (mr_data_length-count net addr count pos fits mh small d)
          ∙ sign_extend_small count (omega arith) in
        let dws = calculate_length-dw addr count pos fits (omega arith) in
        let (cs, ran, bytes, all) =
          rounds fuel len count addr (len - addr % 4 - count) (omega (arith, d.dws, dws))
            (omega (arith, d.dws, dws)) pos (omega arith) (omega (arith, d.dws, dws)) enough base
            (omega arith) (omega arith) in
        (
          cs,
          mrd_taken at ∙ ap (λ n. mrd_loop net fuel p mh requester len n addr) asked ∙ ran,
          bytes ∙ ap (λ n. take (n * 4) (drop (addr / 4 * 4 - p.base) p.memory)) d.dws,
          all,
        )

    -- A read request that lies in the region, and for which more bytes are counted than its DWs have
    -- behind the low bits of its address, is never done: no number of rounds ends the loop.
    pub psmem_mrd-endless :
        mr_addr net mh field ≡ addr
        → sign_extend (mr_data_length net mh) + addr % 4 < 2 ^ 62
        → tlp_length net mh.tlp.falen * 4 < sign_extend (mr_data_length net mh) + addr % 4
        → psmem_mrd net fuel p mh requester field ≡ done none
    psmem_mrd-endless e small more =
        mrd_taken e
        ∙ drained fuel (tlp_length net mh.tlp.falen * 4) (sign_extend (mr_data_length net mh)) addr
            (omega arith) more small base (omega arith) (omega arith)
