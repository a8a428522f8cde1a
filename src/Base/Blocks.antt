-- ===== src/Base/Blocks.antt =====
-- Blocks of memory as lists of bytes. A read or write that does not lie inside its block is a
-- fault, `none`; `memmove` between a block and other memory is one read or one write.
use Prim.Native.Nat.{ℕ, zero, suc, ◌+◌, ◌-◌, ◌≤◌, ◌<◌, min}
use mathlib.Core.Path.{◌≡◌, refl, ap, ◌∙◌}
use mathlib.Core.Bool.{◌&&◌}
use mathlib.Core.Option.{Option, none, some}
use mathlib.Core.List.{List, [], ◌∷◌, ◌++◌}
use native.Mathlib.Omega.{arith}
use login_server.Base.Tests.{ltb, leb, if◌then◌else◌}
use login_server.Base.Lists.{
  length, get_or, take, drop, length-take, length-drop, length-append, get_or_ext, get_or-append,
  get_or-take, get_or-drop, take-append, drop-append, take-take, drop-take, drop-add,
}

-- `bytes` over the block from offset `off` on; what would lie beyond the block is dropped.
abbrev pub splice : List ℕ → ℕ → List ℕ → List ℕ
splice [] off bytes = []
splice (x ∷ xs) zero [] = x ∷ xs
splice (x ∷ xs) zero (b ∷ bs) = b ∷ splice xs zero bs
splice (x ∷ xs) (suc off) bytes = x ∷ splice xs off bytes

abbrev pub slice : List ℕ → ℕ → ℕ → List ℕ
slice block off n = take n (drop off block)

unfoldable pub read_block : List ℕ → ℕ → ℕ → Option (List ℕ)
read_block block off n = if leb (off + n) (length block) then some (slice block off n) else none

unfoldable pub write_block : List ℕ → ℕ → List ℕ → Option (List ℕ)
write_block block off bytes =
    if leb (off + length bytes) (length block) then some (splice block off bytes) else none

pub read_block_inside :
    (block : List ℕ) (off n : ℕ)
    → off + n ≤ length block
    → read_block block off n ≡ some (slice block off n)
unfolding read_block
read_block_inside block off n h = ground arith

pub write_block_inside :
    (block : List ℕ) (off : ℕ) (bytes : List ℕ)
    → off + length bytes ≤ length block
    → write_block block off bytes ≡ some (splice block off bytes)
unfolding write_block
write_block_inside block off bytes h = ground arith

pub write_block_outside :
    (block : List ℕ) (off : ℕ) (bytes : List ℕ)
    → length block < off + length bytes
    → write_block block off bytes ≡ none
unfolding write_block
write_block_outside block off bytes h = ground arith

pub length-splice :
    (block : List ℕ) (off : ℕ) (bytes : List ℕ) → length (splice block off bytes) ≡ length block
length-splice [] off bytes = refl
length-splice (x ∷ xs) zero [] = refl
length-splice (x ∷ xs) zero (b ∷ bs) = ap suc (length-splice xs zero bs)
length-splice (x ∷ xs) (suc off) bytes = ap suc (length-splice xs off bytes)

pub length-slice :
    (block : List ℕ) (off n : ℕ) → length (slice block off n) ≡ min n (length block - off)
length-slice block off n = omega (arith, length-take n (drop off block), length-drop off block)

-- What a write leaves at each index inside the block.
pub get_or-splice :
    (block : List ℕ) (off : ℕ) (bytes : List ℕ) (j : ℕ)
    → j < length block
    → get_or (splice block off bytes) j 0 ≡ (
        if leb off j && ltb j (off + length bytes)
        then get_or bytes (j - off) 0
        else get_or block j 0)
get_or-splice [] off bytes j h = absurd (omega arith)
get_or-splice (x ∷ xs) zero [] j h = ground arith
get_or-splice (x ∷ xs) zero (b ∷ bs) zero h = ground arith
get_or-splice (x ∷ xs) zero (b ∷ bs) (suc j) h =
    ground (arith, get_or-splice xs zero bs j (omega arith))
get_or-splice (x ∷ xs) (suc off) bytes zero h = ground arith
get_or-splice (x ∷ xs) (suc off) bytes (suc j) h =
    ground (arith, get_or-splice xs off bytes j (omega arith))

-- Writing just behind a slice extends it; the first part of a slice, and what is after it.
pub slice-splice :
    (block : List ℕ) (off n : ℕ) (bytes : List ℕ)
    → off + n + length bytes ≤ length block
    → slice (splice block (off + n) bytes) off (n + length bytes) ≡ slice block off n ++ bytes
slice-splice block off n bytes h =
    get_or_ext 0 (slice (splice block (off + n) bytes) off (n + length bytes))
      (slice block off n ++ bytes)
      (omega (
        arith,
        length-slice (splice block (off + n) bytes) off (n + length bytes),
        length-splice block (off + n) bytes,
        length-append (slice block off n) bytes,
        length-slice block off n,
      ))
      λ i lt. ground (
        arith,
        length-slice (splice block (off + n) bytes) off (n + length bytes),
        length-splice block (off + n) bytes,
        length-slice block off n,
        get_or-take (n + length bytes) (drop off (splice block (off + n) bytes)) i 0,
        get_or-drop off (splice block (off + n) bytes) i 0,
        get_or-splice block (off + n) bytes (off + i),
        get_or-append (slice block off n) bytes i 0,
        get_or-take n (drop off block) i 0,
        get_or-drop off block i 0,
        index_sub off n i,
      )
  where
    index_sub : (a b c : ℕ) → a + c - (a + b) ≡ c - b
    index_sub a b c = omega arith

pub slice-take :
    (block : List ℕ) (off n k : ℕ) → n ≤ k → slice block off n ≡ take n (slice block off k)
slice-take block off n k h = take-take n k (drop off block) h

pub slice-drop :
    (block : List ℕ) (off n k : ℕ)
    → n ≤ k
    → slice block (off + n) (k - n) ≡ drop n (slice block off k)
slice-drop block off n k h =
    ap (take (k - n)) (drop-add off n block) ∙ drop-take n k (drop off block) h

-- A write of a whole block replaces it.
pub splice-all : (block bytes : List ℕ) → length block ≡ length bytes → splice block 0 bytes ≡ bytes
splice-all [] [] e = refl
splice-all [] (b ∷ bs) e = absurd (omega arith)
splice-all (x ∷ xs) [] e = absurd (omega arith)
splice-all (x ∷ xs) (b ∷ bs) e = ap (◌∷◌ b) (splice-all xs bs (omega arith))

-- Reads and writes of the middle of a block that is given in three parts.
splice-front :
    (mid post new : List ℕ) → length new ≡ length mid → splice (mid ++ post) 0 new ≡ new ++ post
splice-front [] [] [] e = refl
splice-front [] (y ∷ post) [] e = refl
splice-front [] post (b ∷ new) e = absurd (omega arith)
splice-front (x ∷ mid) post [] e = absurd (omega arith)
splice-front (x ∷ mid) post (b ∷ new) e = ap (◌∷◌ b) (splice-front mid post new (omega arith))

splice-parts :
    (pre mid post new : List ℕ)
    → length new ≡ length mid
    → splice (pre ++ (mid ++ post)) (length pre) new ≡ pre ++ (new ++ post)
splice-parts [] mid post new e = splice-front mid post new e
splice-parts (x ∷ pre) mid post new e = ap (◌∷◌ x) (splice-parts pre mid post new e)

pub read_parts :
    (pre mid post : List ℕ) → read_block (pre ++ (mid ++ post)) (length pre) (length mid) ≡ some mid
read_parts pre mid post =
    read_block_inside (pre ++ (mid ++ post)) (length pre) (length mid)
      (omega (arith, length-append pre (mid ++ post), length-append mid post))
    ∙ ap (λ xs. some (take (length mid) xs)) (drop-append pre (mid ++ post))
    ∙ ap some (take-append mid post)

pub write_parts :
    (pre mid post new : List ℕ)
    → length new ≡ length mid
    → write_block (pre ++ (mid ++ post)) (length pre) new ≡ some (pre ++ (new ++ post))
write_parts pre mid post new e =
    write_block_inside (pre ++ (mid ++ post)) (length pre) new
      (omega (arith, length-append pre (mid ++ post), length-append mid post))
    ∙ ap some (splice-parts pre mid post new e)
