-- ===== src/Dma/Psmem/Reply.antt =====
-- sdplane/nettlp.c, the answers of the pseudo memory: nettlp_psmem_mrd, nettlp_psmem_receive.
-- A completion is its header and the bytes behind it, as it is handed to nettlp_udp_send; the buffer
-- for it is served. The flags of the length field that the request has are copied with it.
use Prim.Native.Nat.{bit_or}
use nettlp_dpdk.Prelude.{
  ℕ, zero, suc, ◌+◌, ◌-◌, ◌*◌, ◌/◌, ◌%◌, ◌^◌, Bool, true, false, ◌&&◌, ◌||◌, not, Option, none,
  some, List, [], ◌∷◌, ltb, ◌==◌, if◌then◌else◌, Run, done, abort, length, take, drop, ◌>>=◌,
}
use nettlp_dpdk.Tlp.ByteOrder.{Net}
use nettlp_dpdk.Tlp.{
  MrHeader, CplHeader, word, mr_addr, mr_data_length, tlp_length, set_length, set_fmt, set_type,
  fmt_3dw, fmt_w_data, type_cpl, is_mrd, is_mwr,
}
use nettlp_dpdk.Dma.Psmem.{Psmem, sign_extend, is_outside, psmem_mwr}

pub record Completion : Type 0 where
  pub ch : CplHeader
  pub bytes : List ℕ

-- MAXPAYLOADSIZE
abbrev pub max_payload : ℕ
max_payload = 256

abbrev pub chunk : ℕ → ℕ
chunk len = if ltb len max_payload then len else max_payload

-- `data_len > 0`, of a ssize_t given by its 64 bits.
abbrev pub is_positive : ℕ → Bool
is_positive d = ltb 0 d && ltb d (2 ^ 63)

abbrev pub add_reply : Completion → Option (List Completion) → Run (Option (List Completion))
add_reply sent none = done none
add_reply sent (some cs) = done (some (sent ∷ cs))

module _ (net : Net) where
  -- The header: memcpy takes 12 bytes of the request, so that bit 12 of `stcnt`, which neither macro
  -- clears, comes from the tag.
  pub cpl_header : MrHeader → ℕ → ℕ → ℕ → ℕ → CplHeader
  cpl_header mh requester send_len data_len addr = record {
    tlp = record mh.tlp {
      fmt_type = set_type (set_fmt mh.tlp.fmt_type fmt_3dw fmt_w_data) type_cpl;
      falen = set_length net mh.tlp.falen (send_len / 4);
    };
    completer = net.hton16 requester;
    stcnt = net.hton16 (bit_or (mh.tag / 16 % 2 * 4096) data_len % 2 ^ 16);
    requester = mh.requester;
    tag = mh.tag;
    lowaddr = addr % 128;
  }

  -- The completion of a round.
  abbrev pub reply_at : Psmem → MrHeader → ℕ → ℕ → ℕ → ℕ → Completion
  reply_at p mh requester len data_len addr = record {
    ch = cpl_header mh requester (chunk len) data_len addr;
    bytes = take (chunk len) (drop (addr / 4 * 4 - p.base) p.memory);
  }

  -- The do loop: the completions sent, `none` where the fuel is out. A copy from outside the memory
  -- is `abort`.
  unfoldable pub mrd_loop : ℕ → Psmem → MrHeader → ℕ → ℕ → ℕ → ℕ → Run (Option (List Completion))
  mrd_loop zero p mh requester len data_len addr = done none
  mrd_loop (suc fuel) p mh requester len data_len addr =
      let data_len' : ℕ = (data_len + word - chunk len + addr % 4) % word in
      let rest =
        mrd_loop fuel p mh requester (len - chunk len) data_len'
          ((addr / 4 * 4 + chunk len) % word) in
      if ltb (addr / 4 * 4) p.base || ltb (length p.memory) (addr / 4 * 4 - p.base + chunk len)
      then abort
      else if is_positive data_len'
      then (rest >>= add_reply (reply_at p mh requester len data_len addr))
      else done (some (reply_at p mh requester len data_len addr ∷ []))

  -- nettlp_psmem_mrd. `field` is the address behind the header.
  unfoldable pub psmem_mrd : ℕ → Psmem → MrHeader → ℕ → ℕ → Run (Option (List Completion))
  psmem_mrd fuel p mh requester field =
      let len : ℕ = tlp_length net mh.tlp.falen * 4 in
      let addr : ℕ = mr_addr net mh field in
      if is_outside p addr len
      then done (some [])
      else mrd_loop fuel p mh requester len (sign_extend (mr_data_length net mh)) addr

-- A packet as it comes in: the fields that the receiver tests, and the request behind them.
pub record Received : Type 0 where
  pub ether_type : ℕ
  pub next_proto_id : ℕ
  pub mh : MrHeader
  pub field : ℕ
  pub payload : ℕ → ℕ

-- What nettlp_psmem_receive leaves: the memory, the completions, and whether the mbuf was freed.
pub record Outcome : Type 0 where
  pub psmem : Psmem
  pub replies : List Completion
  pub freed : Bool

module _ (net : Net) where
  abbrev pub served : Psmem → Option (List Completion) → Option Outcome
  served p none = none
  served p (some cs) = some (record { psmem = p; replies = cs; freed = true })

  -- nettlp_psmem_receive: a packet for another address is taken too, and completions do nothing.
  unfoldable pub psmem_receive : ℕ → Psmem → ℕ → Received → Run (Option Outcome)
  psmem_receive fuel p requester r =
      if not (net.ntoh16 r.ether_type == 0x0800) || not (r.next_proto_id == 17)
      then done (some (record { psmem = p; replies = []; freed = false }))
      else if is_mrd r.mh.tlp.fmt_type
      then (psmem_mrd net fuel p r.mh requester r.field >>= λ o. done (served p o))
      else if is_mwr r.mh.tlp.fmt_type
      then (psmem_mwr net p r.mh r.field r.payload >>= λ p'.
          done (some (record { psmem = p'; replies = []; freed = true })))
      else done (some (record { psmem = p; replies = []; freed = true }))
