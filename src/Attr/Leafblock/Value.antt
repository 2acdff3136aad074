-- ===== src/Attr/Leafblock/Value.antt =====
-- The values of attributes in src/libxfuse/attr.rs: in the block, or in blocks of their own that are read
-- when the value is asked for and kept.
use xfuse.Base.{
  ℕ, zero, suc, ◌+◌, ◌-◌, ◌++◌, ltb, leb, if◌then◌else◌, length, drop, take, Outcome, ok, panic,
  ◌>>=◌, ◌>>◌, assert,
}
use xfuse.Codec.{Bytes, Bincode, decode, slice_from}
use xfuse.Sb.{Sb, fsb_to_offset}
use xfuse.Attr.{add32}
use xfuse.Attr.Leafblock.{AttrLeafName, local, remote, AttrLeafNameRemote}
use xfuse.Attr.Leafblock.Header.{get_rm_bytes, rmt_hdr_size}

-- On a device, in a fork that maps its blocks; `map_dblock` is the caller's closure.
module _ (bc : Bincode) (sb : Sb) (device : Bytes) (map_dblock : ℕ → Outcome ℕ ℕ) where
  -- A round of the loop: the bytes of the value in a block, behind its header.
  unfoldable pub read_rmt : ℕ → Outcome ℕ Bytes
  unfolding get_rm_bytes
  read_rmt valueblk = do
    blk_num ← map_dblock valueblk
    let offset = fsb_to_offset sb blk_num
    assert (ltb offset (length device))
    rm_bytes ← decode (get_rm_bytes bc) (drop offset device)
    assert (leb (offset + rmt_hdr_size + rm_bytes) (length device))
    ok (take rm_bytes (drop (offset + rmt_hdr_size) device))

  -- The loop while bytes are missing; their number may fall below 0, where it ends too. Out of fuel is a
  -- panic.
  unfoldable pub rmt_loop : ℕ → ℕ → ℕ → Bytes → Outcome ℕ Bytes
  unfolding read_rmt
  rmt_loop zero valueblk valuelen value = panic
  rmt_loop (suc fuel) valueblk valuelen value =
      let more = (do
        bytes ← read_rmt valueblk
        rmt_loop fuel (add32 valueblk 1) (valuelen - length bytes) (value ++ bytes)) in
      if ltb 0 valuelen then more else ok value

  -- `AttrLeafNameRemote::value`.
  unfoldable pub remote_value : ℕ → AttrLeafNameRemote → Outcome ℕ Bytes
  unfolding rmt_loop
  remote_value fuel r =
      if ltb (length r.value) r.valuelen
      then rmt_loop fuel r.valueblk r.valuelen r.value
      else ok r.value

  -- `AttrLeafName::value`: the value, and the name that keeps it.
  unfoldable pub value : ℕ → AttrLeafName → Outcome ℕ (Bytes × AttrLeafName)
  unfolding remote_value
  value fuel (local l) = do v ← slice_from l.nameval l.namelen; ok (v, local l)
  value fuel (remote r) = do v ← remote_value fuel r; ok (v, remote (record r { value = v }))
