-- ===== src/Dma/Psmem.antt =====
-- sdplane/nettlp.c, the pseudo memory: nettlp_psmem_mwr. Reply has nettlp_psmem_mrd and
-- nettlp_psmem_receive.
-- The memory is the list of its bytes, empty where `psmem_memory` is NULL. A copy that leaves it
-- gives `abort`, as it leaves nothing of the process to rely on.
pub mod Access
pub mod Reply
pub mod Rounds
use Prim.Native.Nat.{bit_or}
use nettlp_dpdk.Prelude.{
  ℕ, zero, suc, ◌+◌, ◌-◌, ◌*◌, ◌/◌, ◌%◌, ◌^◌, Bool, true, false, ◌&&◌, ◌||◌, not, List, [], ◌∷◌,
  ◌++◌, ltb, leb, ◌==◌, if◌then◌else◌, Run, done, abort, length, take, drop, min, ◌>>=◌,
}
use nettlp_dpdk.Tlp.ByteOrder.{Net}
use nettlp_dpdk.Tlp.{
  MrHeader, word, mr_addr, mr_data_length, mwr_data, tlp_length, is_mrd, is_mwr, is_cpl, is_wo_data,
  is_w_data,
}

-- psmem_addr, psmem_size and psmem_memory
pub record Psmem : Type 0 where
  pub base : ℕ
  pub size : ℕ
  pub memory : List ℕ

-- The `int` with these 32 bits, as a 64-bit word.
pub sign_extend : ℕ → ℕ
sign_extend x = if ltb x (2 ^ 31) then x else x + (word - 2 ^ 32)

-- The `len` bytes from an offset on.
pub bytes_from : (ℕ → ℕ) → ℕ → ℕ → List ℕ
bytes_from bytes offset zero = []
bytes_from bytes offset (suc len) = bytes offset ∷ bytes_from bytes (offset + 1) len

-- memcpy (psmem_memory + offset, ..., length data)
pub write_at : List ℕ → ℕ → List ℕ → List ℕ
write_at memory offset bytes = take offset memory ++ (bytes ++ drop (offset + length bytes) memory)

-- addr < psmem_addr || addr + len > psmem_addr + psmem_size
pub is_outside : Psmem → ℕ → ℕ → Bool
is_outside p addr len = ltb addr p.base || ltb ((p.base + p.size) % word) ((addr + len) % word)

module _ (net : Net) where
  -- `bytes` is the memory behind the request's header: the address field, then the payload.
  pub psmem_mwr : Psmem → MrHeader → ℕ → (ℕ → ℕ) → Run Psmem
  psmem_mwr p mh field bytes =
      let addr = mr_addr net mh field in
      let len = sign_extend (mr_data_length net mh) in
      let copied = record p {
        memory = write_at p.memory (addr - p.base) (bytes_from bytes (mwr_data net mh) len);
      } in
      if is_outside p addr len
      then done p
      else if leb (addr - p.base + len) (length p.memory)
      then done copied
      else abort
