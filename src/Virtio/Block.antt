-- ===== src/Virtio/Block.antt =====
-- virtio.c: the block device.
-- The disk behind it is a parameter. `read_async` returns its result with the buffer as it is after
-- the call; where it answers later, it fills the buffer before it calls `virtio_block_req_cb`. A
-- failed assertion and `abort` are `none`, like a loop that does not end. `frame` is what the
-- caller's frame holds.
pub mod Kind
use d_risc_v_emulator_tinyem.Base.{
  ℕ, ◌+◌, ◌-◌, ◌*◌, ◌/◌, ◌%◌, ◌^◌, Bool, true, false, ◌==◌, if◌then◌else◌, u32, u64, Option, none,
  some, Mem, store8, load_le,
}
use d_risc_v_emulator_tinyem.Cutils.{put_le32}
use d_risc_v_emulator_tinyem.Iomem.{PhysMemoryMap}
use d_risc_v_emulator_tinyem.Virtio.Init.{virtio_init}
use d_risc_v_emulator_tinyem.Virtio.Notify.{DeviceRecv, Result, returns, hangs, queue_notify}
use d_risc_v_emulator_tinyem.Virtio.Queue.{VirtioDesc, memcpy_from_queue, memcpy_to_queue, sext64}
use d_risc_v_emulator_tinyem.Virtio.{VirtioDevice, virtio_consume_desc, neg32}

abbrev pub virtio_blk_t_in : ℕ
virtio_blk_t_in = 0

abbrev pub virtio_blk_t_out : ℕ
virtio_blk_t_out = 1

abbrev pub virtio_blk_s_ok : ℕ
virtio_blk_s_ok = 0

abbrev pub virtio_blk_s_ioerr : ℕ
virtio_blk_s_ioerr = 1

abbrev pub sector_size : ℕ
sector_size = 512

-- `sizeof(BlockRequestHeader)`
abbrev pub header_size : ℕ
header_size = 16

-- `type` of the source is `req_type`.
pub record BlockRequest : Type 0 where
  pub req_type : ℕ
  pub buf : Mem
  pub write_size : ℕ
  pub queue_idx : ℕ
  pub desc_idx : ℕ

pub record BlockState : Type 0 where
  pub req_in_progress : Bool
  pub req : BlockRequest

abbrev pub VirtioBlockDevice : Type 0
VirtioBlockDevice = VirtioDevice BlockState

-- The functions of the disk. The result is an `int`.
pub record BlockDevice : Type 0 where
  pub read_async : ℕ → Mem → ℕ → ℕ × Mem
  pub write_async : ℕ → Mem → ℕ → ℕ
  pub get_sector_count : ℕ

abbrev pub set_block : VirtioBlockDevice → BlockState → VirtioBlockDevice
set_block s b = record s { device = b }

-- The status that goes behind the data.
abbrev pub block_status : ℕ → ℕ
block_status ret = if neg32 ret then virtio_blk_s_ioerr else virtio_blk_s_ok

-- The answer to the guest, after the copy into its chain.
unfoldable pub answered :
    ℕ → ℕ → ℕ → Option (Bool × VirtioBlockDevice × Mem) → Option VirtioBlockDevice
answered queue_idx desc_idx len none = none
answered queue_idx desc_idx len (some (_, s, _)) =
    some (virtio_consume_desc s queue_idx desc_idx len)

unfoldable pub virtio_block_req_end :
    ℕ → VirtioDesc → VirtioBlockDevice → ℕ → Option VirtioBlockDevice
virtio_block_req_end fuel frame s ret =
    let req = s.device.req in
    let q = req.queue_idx in
    let d = req.desc_idx in
    if req.req_type == virtio_blk_t_in
    then (let last = sext64 (u32 (req.write_size + 2 ^ 32 - 1)) in
        let buf = store8 req.buf last (block_status ret) in
        answered q d req.write_size (memcpy_to_queue fuel frame s q d 0 buf req.write_size))
    else if req.req_type == virtio_blk_t_out
    then answered q d 1 (memcpy_to_queue fuel frame s q d 0 (λ _. block_status ret) 1)
    else none

unfoldable pub accepted : Option VirtioBlockDevice → Option (Bool × VirtioBlockDevice)
accepted none = none
accepted (some s) = some (false, s)

-- The request ends at once unless the disk says, by a result above 0, that it answers later.
unfoldable pub started : ℕ → VirtioDesc → VirtioBlockDevice → ℕ → Option (Bool × VirtioBlockDevice)
started fuel frame s ret =
    if neg32 ret
    then accepted (virtio_block_req_end fuel frame s ret)
    else if ret == 0
    then accepted (virtio_block_req_end fuel frame s ret)
    else some (false, set_block s (record s.device { req_in_progress = true }))

-- The quotient of an `int` by the size of a sector, towards zero.
abbrev pub sectors : ℕ → ℕ
sectors a = if neg32 a then u32 (2 ^ 32 - (2 ^ 32 - a) / sector_size) else a / sector_size

unfoldable pub read_request :
    ℕ → VirtioDesc → BlockDevice → VirtioBlockDevice → ℕ → ℕ → Option (Bool × VirtioBlockDevice)
read_request fuel frame bs s sector_num write_size =
    let (ret, buf) = bs.read_async sector_num frame (sectors (u32 (write_size + 2 ^ 32 - 1))) in
    let b = s.device in
    let req : BlockRequest = record b.req { buf = buf; write_size = write_size } in
    started fuel frame (set_block s (record b { req = req })) ret

-- The data of the guest, copied out of its chain, and what the disk does with it.
unfoldable pub written_data :
    ℕ
    → VirtioDesc
    → BlockDevice
    → ℕ
    → ℕ
    → Option (Bool × VirtioBlockDevice × Mem)
    → Option (Bool × VirtioBlockDevice)
written_data fuel frame bs sector_num len none = none
written_data fuel frame bs sector_num len (some (_, s, buf)) =
    started fuel frame s (bs.write_async sector_num buf (sectors len))

unfoldable pub write_request :
    ℕ → VirtioDesc → BlockDevice → VirtioBlockDevice → ℕ → ℕ → ℕ → Option (Bool × VirtioBlockDevice)
write_request fuel frame bs s sector_num read_size write_size =
    let req = s.device.req in
    let len = u32 (read_size + 2 ^ 32 - header_size) in
    if neg32 write_size
    then none
    else if write_size == 0
    then none
    else written_data fuel frame bs sector_num len
        (memcpy_from_queue fuel frame s frame req.queue_idx req.desc_idx header_size len)

-- What the device does with the header of a request, when it could read one.
unfoldable pub with_header :
    ℕ
    → VirtioDesc
    → BlockDevice
    → ℕ
    → ℕ
    → ℕ
    → ℕ
    → Option (Bool × VirtioBlockDevice × Mem)
    → Option (Bool × VirtioBlockDevice)
with_header fuel frame bs queue_idx desc_idx read_size write_size none = none
with_header fuel frame bs queue_idx desc_idx read_size write_size (some (false, s, h)) =
    some (false, s)
with_header fuel frame bs queue_idx desc_idx read_size write_size (some (true, s, h)) =
    let b = s.device in
    let req : BlockRequest = record b.req {
      req_type = load_le 4 h 0;
      queue_idx = queue_idx;
      desc_idx = desc_idx;
    } in
    let s1 = set_block s (record b { req = req }) in
    if req.req_type == virtio_blk_t_in
    then read_request fuel frame bs s1 (load_le 8 h 8) write_size
    else if req.req_type == virtio_blk_t_out
    then write_request fuel frame bs s1 (load_le 8 h 8) read_size write_size
    else some (false, s1)

unfoldable pub virtio_block_recv_request : ℕ → VirtioDesc → BlockDevice → DeviceRecv BlockState
virtio_block_recv_request fuel frame bs s queue_idx desc_idx read_size write_size =
    elim s.device.req_in_progress [
      | true ↦ some (true, s)
      | false ↦
          with_header fuel frame bs queue_idx desc_idx read_size write_size
            (memcpy_from_queue fuel frame s frame queue_idx desc_idx 0 header_size)
    ]

-- The queue is notified again when the request in progress has ended.
unfoldable pub after_end :
    ℕ → VirtioDesc → BlockDevice → Option VirtioBlockDevice → Result BlockState
after_end fuel frame bs none = hangs
after_end fuel frame bs (some s) =
    let b = s.device in
    queue_notify fuel frame (virtio_block_recv_request fuel frame bs)
      (set_block s (record b { req_in_progress = false })) b.req.queue_idx

-- `filled` is the buffer of the request, as the disk has filled it.
unfoldable pub virtio_block_req_cb :
    ℕ → VirtioDesc → BlockDevice → VirtioBlockDevice → Mem → ℕ → Result BlockState
virtio_block_req_cb fuel frame bs s filled ret =
    let b = s.device in
    let s1 = set_block s (record b { req = record b.req { buf = filled } }) in
    after_end fuel frame bs (virtio_block_req_end fuel frame s1 ret)

-- The configuration space holds the number of sectors.
unfoldable pub virtio_block_init :
    PhysMemoryMap → Mem → ℕ → ℕ → BlockDevice → Option VirtioBlockDevice
virtio_block_init mem_map mem addr opaque bs =
    let nb_sectors = bs.get_sector_count in
    let req : BlockRequest = record {
      req_type = 0;
      buf = λ _. 0;
      write_size = 0;
      queue_idx = 0;
      desc_idx = 0;
    } in
    elim (virtio_init mem_map mem addr opaque 2 8 (record { req_in_progress = false; req = req })) [
      | none ↦ none
      | some s ↦ some (record s {
        config_space =
            put_le32 (put_le32 s.config_space 0 (u32 nb_sectors)) 4 (u32 (nb_sectors / 2 ^ 32));
      })
    ]
