-- ===== src/Cutils/Dbuf.antt =====
-- cutils.c: the growing buffer, and the prefix test of strings.
-- A buffer's bytes are a function from offsets: `realloc` keeps the old ones, and what it gives past
-- them is not read before it is written. A string is the list of its bytes before the final 0. The
-- sizes are numbers below 2 ^ 31, which the `int`s of max_int hold.
pub mod Append
use d_risc_v_emulator_tinyem.Base.{
  ℕ, ◌+◌, ◌*◌, ◌/◌, Bool, ◌==◌, ltb, if◌then◌else◌, Option, none, some, List, [], ◌∷◌, length,
}

pub record DynBuf : Type 0 where
  pub buf : ℕ → ℕ
  pub size : ℕ
  pub allocated_size : ℕ

unfoldable pub max_int : ℕ → ℕ → ℕ
max_int a b = if ltb b a then a else b

unfoldable pub dbuf_init : DynBuf
dbuf_init = record { buf = λ _. 0; size = 0; allocated_size = 0 }

-- `memcpy(buf + offset, bytes, len)`
unfoldable pub memcpy : (ℕ → ℕ) → ℕ → List ℕ → ℕ → ℕ
memcpy buf offset [] = buf
memcpy buf offset (c ∷ bytes) = memcpy (λ i. if i == offset then c else buf i) (offset + 1) bytes

unfoldable pub dbuf_write : DynBuf → ℕ → List ℕ → DynBuf
dbuf_write s offset bytes =
    let end = offset + length bytes in
    let grown =
      if ltb s.allocated_size end
      then max_int end (s.allocated_size * 3 / 2)
      else s.allocated_size in
    record {
      buf = memcpy s.buf offset bytes;
      size = if ltb s.size end then end else s.size;
      allocated_size = grown;
    }

unfoldable pub dbuf_putc : DynBuf → ℕ → DynBuf
dbuf_putc s c = dbuf_write s s.size (c ∷ [])

unfoldable pub dbuf_putstr : DynBuf → List ℕ → DynBuf
dbuf_putstr s str = dbuf_write s s.size str

-- The rest of a string that starts with another, which `*ptr` is set to.
unfoldable pub strstart : List ℕ → List ℕ → Option (List ℕ)
strstart str [] = some str
strstart [] (q ∷ val) = none
strstart (p ∷ str) (q ∷ val) = let rest = strstart str val in if p == q then rest else none
