-- ===== src/Virtio/Config.antt =====
-- virtio.c: the configuration space of a device.
-- An access of another size ends the program (`none`) where it is a read, and does nothing where it
-- is a write. `config_write` is the device's callback, the identity where it is null.
pub mod Bounds
use d_risc_v_emulator_tinyem.Base.{
  ℕ, ◌+◌, ◌-◌, ◌%◌, ◌^◌, Bool, true, false, ltb, ◌==◌, if◌then◌else◌, u8, u16, u32, Option, none,
  some, Mem, store8,
}
use d_risc_v_emulator_tinyem.Cutils.{get_le16, get_le32, put_le16, put_le32}
use d_risc_v_emulator_tinyem.Virtio.{VirtioDevice}

abbrev pub max_config_space_size : ℕ
max_config_space_size = 256

module _ {D : Type 0} where
  -- The end is an unsigned difference, which wraps around.
  unfoldable pub virtio_config_read : VirtioDevice D → ℕ → ℕ → Option ℕ
  virtio_config_read s offset size_log2 =
      if size_log2 == 0
      then some (if ltb offset s.config_space_size then s.config_space offset else 0)
      else if size_log2 == 1
      then some (
          if ltb offset (u32 (s.config_space_size + 2 ^ 32 - 1))
          then get_le16 s.config_space offset
          else 0)
      else if size_log2 == 2
      then some (
          if ltb offset (u32 (s.config_space_size + 2 ^ 32 - 3))
          then get_le32 s.config_space offset
          else 0)
      else none

  unfoldable pub virtio_config_write :
      (VirtioDevice D → VirtioDevice D) → VirtioDevice D → ℕ → ℕ → ℕ → VirtioDevice D
  virtio_config_write config_write s offset val size_log2 =
      if size_log2 == 0
      then (if ltb offset s.config_space_size
          then config_write (record s { config_space = store8 s.config_space offset val })
          else s)
      else if size_log2 == 1
      then (if ltb offset (u32 (s.config_space_size + 2 ^ 32 - 1))
          then config_write (record s { config_space = put_le16 s.config_space offset (u16 val) })
          else s)
      else if size_log2 == 2
      then (if ltb offset (u32 (s.config_space_size + 2 ^ 32 - 3))
          then config_write (record s { config_space = put_le32 s.config_space offset val })
          else s)
      else s
