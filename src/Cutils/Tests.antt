-- ===== src/Cutils/Tests.antt =====
-- Concrete runs.
use d_risc_v_emulator_tinyem.Base.{[], ◌∷◌, refl, if◌then◌else◌, ◌==◌, ℕ, ◌≡◌, Mem}
use d_risc_v_emulator_tinyem.Cutils.Dbuf.{DynBuf, dbuf_putstr, dbuf_write, max_int, memcpy}
use d_risc_v_emulator_tinyem.Cutils.Dbuf.Append.{contents, bytes_from}

abbrev word : ℕ
word = 0x280

abbrev blank : Mem
blank = λ _. 0xff

-- A buffer with "ab" in it.
abbrev short : DynBuf
short = record { buf = λ i. if i == 0 then 0x61 else 0x62; size = 2; allocated_size = 2 }

appended : contents (dbuf_putstr short (0x63 ∷ [])) ≡ 0x61 ∷ 0x62 ∷ 0x63 ∷ []
unfolding dbuf_putstr dbuf_write max_int memcpy bytes_from
appended = refl
