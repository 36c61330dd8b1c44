-- ===== src/MemMove.antt =====
-- `memmove` of kernel/lib/string.c. Source and destination are offsets into one array, which may
-- overlap; comparing the pointers is comparing the offsets. A read behind the end of the array gives 0.
use yak_kernel.Prelude.{
  ℕ, zero, suc, ◌+◌, ◌-◌, ◌≤◌, ◌<◌, ◌≡◌, refl, List, arith, length, get_or, set, length-set,
  get_or-set_self, get_or-set_ne, ltb, leb, ◌&&◌, if◌then◌else◌,
}

-- The first loop, from `i` on with `n` rounds left: `pdest[i] = psrc[i]`.
unfoldable pub move_up : ℕ → ℕ → List ℕ → ℕ → ℕ → List ℕ
move_up i zero m dest src = m
move_up i (suc n) m dest src = move_up (i + 1) n (set m (dest + i) (get_or m (src + i) 0)) dest src

-- The second loop, at `i = n`: `pdest[i - 1] = psrc[i - 1]`.
unfoldable pub move_down : ℕ → List ℕ → ℕ → ℕ → List ℕ
move_down zero m dest src = m
move_down (suc n) m dest src = move_down n (set m (dest + n) (get_or m (src + n) 0)) dest src

unfoldable pub memmove : List ℕ → ℕ → ℕ → ℕ → List ℕ
unfolding move_up move_down
memmove m dest src n =
    if ltb dest src
    then move_up 0 n m dest src
    else if ltb src dest
    then move_down n m dest src
    else m

pub length-move_up :
    (i n : ℕ) (m : List ℕ) (dest src : ℕ) → length (move_up i n m dest src) ≡ length m
unfolding move_up
length-move_up i zero m dest src = refl
length-move_up i (suc n) m dest src =
    let m' = set m (dest + i) (get_or m (src + i) 0) in
    ground
      (arith, length-move_up (i + 1) n m' dest src, length-set m (dest + i) (get_or m (src + i) 0))

-- What one place holds after the first loop: a byte of the source as it was, or its own.
move_up-at :
    (i n : ℕ) (m : List ℕ) (dest src j : ℕ)
    → dest < src
    → dest + i + n ≤ length m
    → get_or (move_up i n m dest src) j 0 ≡ (
        if leb (dest + i) j && ltb j (dest + i + n)
        then get_or m (src + (j - dest)) 0
        else get_or m j 0)
unfolding move_up
move_up-at i zero m dest src j lt fits = ground arith
move_up-at i (suc n) m dest src j lt fits =
    let v = get_or m (src + i) 0 in
    ground (
      arith,
      move_up-at (i + 1) n (set m (dest + i) v) dest src j,
      length-set m (dest + i) v,
      get_or-set_self m (dest + i) v 0,
      get_or-set_ne m (dest + i) j v 0,
      get_or-set_ne m (dest + i) (src + (j - dest)) v 0,
    )

move_down-at :
    (n : ℕ) (m : List ℕ) (dest src j : ℕ)
    → src < dest
    → dest + n ≤ length m
    → get_or (move_down n m dest src) j 0
      ≡ (if leb dest j && ltb j (dest + n) then get_or m (src + (j - dest)) 0 else get_or m j 0)
unfolding move_down
move_down-at zero m dest src j lt fits = ground arith
move_down-at (suc n) m dest src j lt fits =
    let v = get_or m (src + n) 0 in
    ground (
      arith,
      move_down-at n (set m (dest + n) v) dest src j,
      length-set m (dest + n) v,
      get_or-set_self m (dest + n) v 0,
      get_or-set_ne m (dest + n) j v 0,
      get_or-set_ne m (dest + n) (src + (j - dest)) v 0,
    )

-- However source and destination overlap, after `memmove` into an array with room the destination
-- holds the bytes that the source held before, and every other byte is as it was.
pub memmove-moves :
    (m : List ℕ) (dest src n j : ℕ)
    → dest + n ≤ length m
    → get_or (memmove m dest src n) j 0
      ≡ (if leb dest j && ltb j (dest + n) then get_or m (src + (j - dest)) 0 else get_or m j 0)
unfolding memmove
memmove-moves m dest src n j fits =
    ground (arith, move_up-at 0 n m dest src j, move_down-at n m dest src j)
