-- ===== src/Cutils/Dbuf/Append.antt =====
-- Writes at the end of a growing buffer append to its contents.
use d_risc_v_emulator_tinyem.Base.{
  true, ℕ, zero, suc, ◌+◌, ◌≤◌, ◌<◌, ◌≡◌, ◌∙◌, ap, ap₂, refl, arith, ◌==◌, ltb, if◌then◌else◌, List,
  [], ◌∷◌, ◌++◌, length, some,
}
use d_risc_v_emulator_tinyem.Cutils.Dbuf.{
  DynBuf, max_int, memcpy, dbuf_write, dbuf_putstr, strstart,
}

-- The `n` bytes from an offset.
unfoldable pub bytes_from : ℕ → ℕ → (ℕ → ℕ) → List ℕ
bytes_from zero p b = []
bytes_from (suc n) p b = b p ∷ bytes_from n (p + 1) b

abbrev pub contents : DynBuf → List ℕ
contents s = bytes_from s.size 0 s.buf

-- What is in use was allocated.
abbrev pub IsAllocated : DynBuf → Type 0
IsAllocated s = s.size ≤ s.allocated_size

memcpy_below : (bytes : List ℕ) (b : ℕ → ℕ) (p i : ℕ) → i < p → memcpy b p bytes i ≡ b i
unfolding memcpy
memcpy_below [] b p i h = refl
memcpy_below (c ∷ bytes) b p i h =
    memcpy_below bytes (λ j. if j == p then c else b j) (p + 1) i (omega arith) ∙ ground arith

bytes_from-memcpy_below :
    (n p q : ℕ) (bytes : List ℕ) (b : ℕ → ℕ)
    → p + n ≤ q
    → bytes_from n p (memcpy b q bytes) ≡ bytes_from n p b
unfolding bytes_from
bytes_from-memcpy_below zero p q bytes b h = refl
bytes_from-memcpy_below (suc n) p q bytes b h =
    ap₂ (λ (x : ℕ) (xs : List ℕ). x ∷ xs) (memcpy_below bytes b q p (omega arith))
      (bytes_from-memcpy_below n (p + 1) q bytes b (omega arith))

bytes_from-memcpy :
    (bytes : List ℕ) (p : ℕ) (b : ℕ → ℕ) → bytes_from (length bytes) p (memcpy b p bytes) ≡ bytes
unfolding bytes_from memcpy
bytes_from-memcpy [] p b = refl
bytes_from-memcpy (c ∷ bytes) p b =
    ap₂ (λ (x : ℕ) (xs : List ℕ). x ∷ xs)
      (memcpy_below bytes (λ j. if j == p then c else b j) (p + 1) p (omega arith) ∙ ground arith)
      (bytes_from-memcpy bytes (p + 1) (λ j. if j == p then c else b j))

bytes_from_add :
    (m n p : ℕ) (b : ℕ → ℕ) → bytes_from (m + n) p b ≡ bytes_from m p b ++ bytes_from n (p + m) b
unfolding bytes_from
bytes_from_add zero n p b = ap₂ (λ (j k : ℕ). bytes_from j k b) (omega arith) (omega arith)
bytes_from_add (suc m) n p b =
    ap (λ (k : ℕ). bytes_from k p b) {y = suc (m + n)} (omega arith)
    ∙ ap (λ (xs : List ℕ). b p ∷ xs)
        (bytes_from_add m n (p + 1) b
          ∙ ap (λ (k : ℕ). bytes_from m (p + 1) b ++ bytes_from n k b) (omega arith))

-- On a buffer that has allocated what it uses, `dbuf_putstr` appends the string to the contents, and the
-- buffer has still allocated what it uses.
pub contents-dbuf_putstr :
    (s : DynBuf) (str : List ℕ)
    → IsAllocated s
    → (contents (dbuf_putstr s str) ≡ contents s ++ str) × IsAllocated (dbuf_putstr s str)
unfolding dbuf_putstr dbuf_write max_int
contents-dbuf_putstr s str fits =
    let longer : (if ltb s.size (s.size + length str) then s.size + length str else s.size)
        ≡ s.size + length str =
      ground arith in
    (
      ap (λ (k : ℕ). bytes_from k 0 (memcpy s.buf s.size str)) longer
          ∙ bytes_from_add s.size (length str) 0 (memcpy s.buf s.size str)
          ∙ ap₂ (λ (xs ys : List ℕ). xs ++ ys)
              (bytes_from-memcpy_below s.size 0 s.size str s.buf (omega arith))
              (ap (λ (k : ℕ). bytes_from (length str) k (memcpy s.buf s.size str)) (omega arith)
                ∙ bytes_from-memcpy str s.size s.buf),
      ground arith,
    )

-- A string that starts with another has the rest behind it.
pub strstart-append : (val rest : List ℕ) → strstart (val ++ rest) val ≡ some rest
unfolding strstart
strstart-append [] rest = refl
strstart-append (q ∷ val) rest =
    let same : q == q ≡ true = ground arith in rw same (strstart-append val rest)
